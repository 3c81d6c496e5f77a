-- ===== src/Tomasulo/Stage.antt =====
-- The execute stage as a whole.
use mscs.Common.{List, [], ◌∷◌}
use mscs.Common.Outcome.{Outcome, ◌>>=◌, Post, holds, Post-map}
use mscs.Simulator.Double.{Double}
use mscs.Tomasulo.Types.{Machine, Stations}
use mscs.Tomasulo.Units.{execute_imul, execute_idiv, execute_fmul, execute_fdiv}
use mscs.Tomasulo.Adders.{execute_iadd, execute_fadd}
use mscs.Tomasulo.MemoryUnits.{execute_load, execute_store}
use mscs.Tomasulo.Frame.{Kept, Kept-refl, Kept-trans}
use mscs.Tomasulo.Cycle.{execute_all, execute}
use mscs.Tomasulo.Bus.{
  execute_iadd-Kept, execute_fadd-Kept, execute_imul-Kept, execute_idiv-Kept, execute_fmul-Kept,
  execute_fdiv-Kept,
}
use mscs.Tomasulo.Bus.Memory.{execute_load-Kept, execute_store-Kept}

module _ (D : Double) where
  open D use {Value}

  pub execute_all-Kept :
      {U : Type 0} (f : U → Machine Value → Outcome (U × Machine Value))
      → ((u : U) (m : Machine Value) → Post (λ r. Kept m r.1) (f u m))
      → (us : List U) (m : Machine Value) → Post (λ r. Kept m r.1) (execute_all f us m)
  unfolding execute_all
  execute_all-Kept f h [] m = holds (Kept-refl m)
  execute_all-Kept f h (u ∷ us) m = Post-map (f u m) (h u m) λ r k.
      Post-map (execute_all f us r.1) (execute_all-Kept f h us r.1) λ s k'. holds (Kept-trans k k')

  -- One list of units after what came before.
  pub Kept-then :
      {U A : Type 0} {P : A → Machine Value} (m l : Machine Value)
      (f : U → Machine Value → Outcome (U × Machine Value)) (us : List U)
      {g : List U × Machine Value → Outcome A}
      → Kept m l
      → ((u : U) (n : Machine Value) → Post (λ r. Kept n r.1) (f u n))
      → ((r : List U × Machine Value) → Kept m r.1 → Post (λ a. Kept m (P a)) (g r))
      → Post (λ a. Kept m (P a)) (execute_all f us l >>= g)
  Kept-then m l f us k h next =
      Post-map (execute_all f us l) (execute_all-Kept f h us l) λ r k'. next r (Kept-trans k k')

  pub execute-Kept :
      (s : Stations Value) (m : Machine Value) → Post (λ r. Kept m r.1) (execute D s m)
  unfolding execute
  execute-Kept s m =
      Kept-then m m (execute_load D) s.load_rs (Kept-refl m) (execute_load-Kept D) λ r1 k1.
        Kept-then m r1.1 (execute_store D) s.store_rs k1 (execute_store-Kept D) λ r2 k2.
          Kept-then m r2.1 (execute_iadd D) s.iadd_rs k2 (execute_iadd-Kept D) λ r3 k3.
            Kept-then m r3.1 (execute_imul D) s.imul_rs k3 (execute_imul-Kept D) λ r4 k4.
              Kept-then m r4.1 (execute_idiv D) s.idiv_rs k4 (execute_idiv-Kept D) λ r5 k5.
                Kept-then m r5.1 (execute_fadd D) s.fadd_rs k5 (execute_fadd-Kept D) λ r6 k6.
                  Kept-then m r6.1 (execute_fmul D) s.fmul_rs k6 (execute_fmul-Kept D) λ r7 k7.
                    Kept-then m r7.1 (execute_fdiv D) s.fdiv_rs k7 (execute_fdiv-Kept D)
                      λ r8 k8. holds k8
