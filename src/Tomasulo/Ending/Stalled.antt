-- ===== src/Tomasulo/Ending/Stalled.antt =====
-- A round in which no unit is busy while an instruction waits to be issued.
use mscs.Common.{
  ◌≡◌, refl, ◌∙◌, Bool, true, false, not, ◌||◌, ltb, if◌then◌else◌, List, [], ◌∷◌, All,
}
use mscs.Common.Int.{ℤ}
use mscs.Common.Outcome.{Outcome, ok, ◌>>=◌, Post, holds, Post-map}
use mscs.Simulator.Double.{Double}
use mscs.Tomasulo.Types.{FinalValue, ival, dval, Machine, MemoryUnit, ArithmeticUnit, Stations}
use mscs.Tomasulo.Registers.{File, integer_file, float_file}
use mscs.Tomasulo.Units.{
  keep_running, run_cycle, send_or_wait, result, execute_binary, execute_imul, execute_idiv,
  execute_fmul, execute_fdiv,
}
use mscs.Tomasulo.Adders.{
  iadd_cycle, iadd_finish, execute_iadd, fadd_cycle, fadd_finish, execute_fadd,
}
use mscs.Tomasulo.MemoryUnits.{
  memory_cycle, finish_load, finish_store, execute_memory, execute_load, execute_store,
}
use mscs.Tomasulo.Issue.{is_busy, is_memory_busy}
use mscs.Tomasulo.Cycle.{execute_all, execute}
use mscs.Simulator.Arithmetic.{mul_int}
use mscs.Simulator.Arithmetic.{div_int}

-- No unit of any kind is busy.
pub record IsIdle {V : Type 0} (s : Stations V) : Type 0 where
  pub loads : All (λ u. u.fu.busy ≡ false) s.load_rs
  pub stores : All (λ u. u.fu.busy ≡ false) s.store_rs
  pub iadds : All (λ u. u.fu.busy ≡ false) s.iadd_rs
  pub imuls : All (λ u. u.fu.busy ≡ false) s.imul_rs
  pub idivs : All (λ u. u.fu.busy ≡ false) s.idiv_rs
  pub fadds : All (λ u. u.fu.busy ≡ false) s.fadd_rs
  pub fmuls : All (λ u. u.fu.busy ≡ false) s.fmul_rs
  pub fdivs : All (λ u. u.fu.busy ≡ false) s.fdiv_rs

module _ {V : Type 0} where
  skip-idle :
      {U : Type 0} (b skip : Bool) (u : U) (m : Machine V)
      (work : Machine V → Outcome (U × Machine V))
      → b ≡ false
      → Post
          (λ r. r.1 ≡ m)
          (if skip || not b then ok (u, keep_running b m) else work (keep_running b m))
  unfolding keep_running
  skip-idle true skip u m work h = cc
  skip-idle false true u m work h = holds refl
  skip-idle false false u m work h = holds refl

  execute_all-idle :
      {U : Type 0} (f : U → Machine V → Outcome (U × Machine V)) (busy : U → Bool)
      → ((u : U) (m : Machine V) → busy u ≡ false → Post (λ r. r.1 ≡ m) (f u m))
      → (us : List U) (m : Machine V) → All (λ u. busy u ≡ false) us
      → Post (λ r. r.1 ≡ m) (execute_all f us m)
  unfolding execute_all
  execute_all-idle f busy h [] m idle = holds refl
  execute_all-idle f busy h (u ∷ us) m idle = Post-map (f u m) (h u m idle.0) λ r e.
      Post-map (execute_all f us r.1) (execute_all-idle f busy h us r.1 idle.1)
        λ t e'. holds (e' ∙ e)

module _ (D : Double) where
  open D use {Value, zero_value}

  binary-idle :
      {S : Type 0} (R : File Value S) (b : Bool) (operator : S → S → Outcome (FinalValue Value))
      (u : ArithmeticUnit Value S) (m : Machine Value)
      → u.fu.busy ≡ false
      → Post (λ r. r.1 ≡ m) (execute_binary D R b operator u m)
  unfolding execute_binary
  binary-idle R b operator u m h =
      skip-idle u.fu.busy u.fu.do_not_execute _ m
        (λ m'.
          if ltb 0 u.fu.remaining
          then run_cycle R u m'
          else (result D operator u >>= λ v. ok (send_or_wait D R.initial b v u m')))
        h

  imul-idle :
      (u : ArithmeticUnit Value ℤ) (m : Machine Value)
      → u.fu.busy ≡ false
      → Post (λ r. r.1 ≡ m) (execute_imul D u m)
  unfolding execute_imul
  imul-idle u m h = binary-idle integer_file false (λ a b. (mul_int a b >>= λ v. ok (ival v))) u m h

  idiv-idle :
      (u : ArithmeticUnit Value ℤ) (m : Machine Value)
      → u.fu.busy ≡ false
      → Post (λ r. r.1 ≡ m) (execute_idiv D u m)
  unfolding execute_idiv
  idiv-idle u m h = binary-idle integer_file false (λ a b. (div_int a b >>= λ v. ok (ival v))) u m h

  fmul-idle :
      (u : ArithmeticUnit Value Value) (m : Machine Value)
      → u.fu.busy ≡ false
      → Post (λ r. r.1 ≡ m) (execute_fmul D u m)
  unfolding execute_fmul
  fmul-idle u m h = binary-idle (float_file zero_value) true (λ a b. ok (dval (D.mul a b))) u m h

  fdiv-idle :
      (u : ArithmeticUnit Value Value) (m : Machine Value)
      → u.fu.busy ≡ false
      → Post (λ r. r.1 ≡ m) (execute_fdiv D u m)
  unfolding execute_fdiv
  fdiv-idle u m h = binary-idle (float_file zero_value) true (λ a b. ok (dval (D.div a b))) u m h

  iadd-idle :
      (u : ArithmeticUnit Value ℤ) (m : Machine Value)
      → u.fu.busy ≡ false
      → Post (λ r. r.1 ≡ m) (execute_iadd D u m)
  unfolding execute_iadd
  iadd-idle u m h =
      skip-idle u.fu.busy u.fu.do_not_execute _ m
        (λ m'. if ltb 0 u.fu.remaining then iadd_cycle u m' else iadd_finish D u m') h

  fadd-idle :
      (u : ArithmeticUnit Value Value) (m : Machine Value)
      → u.fu.busy ≡ false
      → Post (λ r. r.1 ≡ m) (execute_fadd D u m)
  unfolding execute_fadd
  fadd-idle u m h =
      skip-idle u.fu.busy u.fu.do_not_execute _ m
        (λ m'. if ltb 0 u.fu.remaining then fadd_cycle D u m' else ok (fadd_finish D u m')) h

  load-idle :
      (u : MemoryUnit Value) (m : Machine Value)
      → u.fu.busy ≡ false
      → Post (λ r. r.1 ≡ m) (execute_load D u m)
  unfolding execute_load execute_memory
  load-idle u m h =
      skip-idle u.fu.busy u.fu.do_not_execute _ m
        (λ m'. if ltb 0 u.fu.remaining then memory_cycle D u m' else finish_load D u m') h

  store-idle :
      (u : MemoryUnit Value) (m : Machine Value)
      → u.fu.busy ≡ false
      → Post (λ r. r.1 ≡ m) (execute_store D u m)
  unfolding execute_store execute_memory
  store-idle u m h =
      skip-idle u.fu.busy u.fu.do_not_execute _ m
        (λ m'. if ltb 0 u.fu.remaining then memory_cycle D u m' else finish_store D u m') h

  pub execute-idle :
      (s : Stations Value) (m : Machine Value) → IsIdle s → Post (λ r. r.1 ≡ m) (execute D s m)
  unfolding execute
  execute-idle s m h =
      Post-map (execute_all (execute_load D) s.load_rs m)
        (execute_all-idle (execute_load D) is_memory_busy load-idle s.load_rs m h.loads)
        λ r1 e1.
          Post-map (execute_all (execute_store D) s.store_rs r1.1)
            (execute_all-idle (execute_store D) is_memory_busy store-idle s.store_rs r1.1 h.stores)
            λ r2 e2.
              Post-map (execute_all (execute_iadd D) s.iadd_rs r2.1)
                (execute_all-idle (execute_iadd D) is_busy iadd-idle s.iadd_rs r2.1 h.iadds)
                λ r3 e3.
                  Post-map (execute_all (execute_imul D) s.imul_rs r3.1)
                    (execute_all-idle (execute_imul D) is_busy imul-idle s.imul_rs r3.1 h.imuls)
                    λ r4 e4.
                      Post-map (execute_all (execute_idiv D) s.idiv_rs r4.1)
                        (execute_all-idle (execute_idiv D) is_busy idiv-idle s.idiv_rs r4.1 h.idivs)
                        λ r5 e5.
                          Post-map (execute_all (execute_fadd D) s.fadd_rs r5.1)
                            (execute_all-idle (execute_fadd D) is_busy fadd-idle s.fadd_rs r5.1
                              h.fadds)
                            λ r6 e6.
                              Post-map (execute_all (execute_fmul D) s.fmul_rs r6.1)
                                (execute_all-idle (execute_fmul D) is_busy fmul-idle s.fmul_rs r6.1
                                  h.fmuls)
                                λ r7 e7.
                                  Post-map (execute_all (execute_fdiv D) s.fdiv_rs r7.1)
                                    (execute_all-idle (execute_fdiv D) is_busy fdiv-idle s.fdiv_rs
                                      r7.1 h.fdivs)
                                    λ r8 e8. holds (e8 ∙ e7 ∙ e6 ∙ e5 ∙ e4 ∙ e3 ∙ e2 ∙ e1)
