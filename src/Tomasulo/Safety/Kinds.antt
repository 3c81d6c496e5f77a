-- ===== src/Tomasulo/Safety/Kinds.antt =====
-- The stations through the issue of every kind of instruction.
use mscs.Common.{ℕ, ◌≡◌, Bool, false, List, [], ◌∷◌}
use mscs.Common.Int.{ℤ}
use mscs.Common.Outcome.{ok, ◌>>=◌, Post, holds, Post-map, Post-if}
use mscs.Common.Text.{codes}
use mscs.Simulator.Double.{Double}
use mscs.Tomasulo.Types.{
  noop, add, add_d, div, sub, sub_d, mul, mul_d, load_immediate, load, store, load_d, store_d, beq,
  bneq, bgtz, bltz, move, beq_d, bneq_d, bgtz_d, bltz_d, move_d, Instruction, Machine, Stations,
}
use mscs.Tomasulo.Reservation.{Verdict, full, fill_units, unit_count, conclude}
use mscs.Tomasulo.Reservation.Kinds.{
  issue_add, issue_other, issue_float_add, issue_mul, issue_float_mul, issue_div, issue_float_div,
  issue_load,
}
use mscs.Tomasulo.Reserved.{
  Untouched, Keeps, Keeps-refl, Untouched-refl, Untouched-trans, conclude-Untouched,
  fill_units-Keeps,
}
use mscs.Tomasulo.Issue.{
  is_busy, is_memory_busy, run_load, run_add, run_other, run_float_add, run_mul, run_float_mul,
  run_div, run_float_div, run_reservation,
}
use mscs.Tomasulo.Adders.{is_one_of}
use mscs.Tomasulo.Safety.{
  eq_opcode, BusyKept, BusyKept-refl, IsSafe, integer-Untouched, float-Untouched,
  issue_other-Untouched, issue_div-Untouched, issue_float_div-Untouched, issue_memory-Untouched,
}

module _ (D : Double) where
  open D use {Value}

  -- The search for a unit, and the lines behind it.
  pub search-IsSafe :
      {U : Type 0} (busy : U → Bool) (issue : ℕ → U → Machine Value → U × Machine Value × Verdict)
      (count : ℤ) (us : List U) (k : ℕ) (s : Stations Value) (m : Machine Value)
      (put : List U → Stations Value)
      → ((i : ℕ) (u : U) (n : Machine Value) → Untouched n (issue i u n).1)
      → ((vs : List U) → Keeps busy us vs → BusyKept s (put vs))
      → Post (IsSafe D s m) (
          fill_units busy issue count us m >>= λ (vs, m', verdict).
          ok (put vs, conclude k verdict m'))
  search-IsSafe busy issue count us k s m put h keep =
      Post-map (fill_units busy issue count us m) (fill_units-Keeps busy issue h count us m)
        λ r q. holds (keep r.0 q.0, Untouched-trans q.1 (conclude-Untouched k r.2 r.1))

  pub run_load-IsSafe :
      (i : Instruction) (s : Stations Value) (m : Machine Value)
      → Post (IsSafe D s m) (run_load D i s m)
  unfolding run_load issue_load
  run_load-IsSafe i s m =
      search-IsSafe is_memory_busy (issue_load D i) (unit_count (codes "loads") m) s.load_rs 0 s m
        (λ vs. record s { load_rs = vs }) (λ j u n. issue_memory-Untouched D (false, full) i u n)
        λ vs q. record {
          loads = q;
          stores = Keeps-refl _ s.store_rs;
          iadds = Keeps-refl _ s.iadd_rs;
          imuls = Keeps-refl _ s.imul_rs;
          idivs = Keeps-refl _ s.idiv_rs;
          fadds = Keeps-refl _ s.fadd_rs;
          fmuls = Keeps-refl _ s.fmul_rs;
          fdivs = Keeps-refl _ s.fdiv_rs;
        }

  pub run_add-IsSafe :
      (i : Instruction) (s : Stations Value) (m : Machine Value)
      → Post (IsSafe D s m) (run_add D i s m)
  unfolding run_add issue_add
  run_add-IsSafe i s m =
      search-IsSafe is_busy (issue_add D i) (unit_count (codes "intadds") m) s.iadd_rs 2 s m
        (λ vs. record s { iadd_rs = vs }) (λ j u n. integer-Untouched D i u n)
        λ vs q. record {
          loads = Keeps-refl _ s.load_rs;
          stores = Keeps-refl _ s.store_rs;
          iadds = q;
          imuls = Keeps-refl _ s.imul_rs;
          idivs = Keeps-refl _ s.idiv_rs;
          fadds = Keeps-refl _ s.fadd_rs;
          fmuls = Keeps-refl _ s.fmul_rs;
          fdivs = Keeps-refl _ s.fdiv_rs;
        }

  pub run_other-IsSafe :
      (i : Instruction) (s : Stations Value) (m : Machine Value)
      → Post (IsSafe D s m) (run_other D i s m)
  unfolding run_other
  run_other-IsSafe i s m =
      search-IsSafe is_busy (issue_other D i) (unit_count (codes "intadds") m) s.iadd_rs 2 s m
        (λ vs. record s { iadd_rs = vs }) (issue_other-Untouched D i)
        λ vs q. record {
          loads = Keeps-refl _ s.load_rs;
          stores = Keeps-refl _ s.store_rs;
          iadds = q;
          imuls = Keeps-refl _ s.imul_rs;
          idivs = Keeps-refl _ s.idiv_rs;
          fadds = Keeps-refl _ s.fadd_rs;
          fmuls = Keeps-refl _ s.fmul_rs;
          fdivs = Keeps-refl _ s.fdiv_rs;
        }

  pub run_float_add-IsSafe :
      (i : Instruction) (s : Stations Value) (m : Machine Value)
      → Post (IsSafe D s m) (run_float_add D i s m)
  unfolding run_float_add issue_float_add
  run_float_add-IsSafe i s m =
      search-IsSafe is_busy (issue_float_add D i) (unit_count (codes "fpadds") m) s.fadd_rs 3 s m
        (λ vs. record s { fadd_rs = vs }) (λ j u n. float-Untouched D full i u n)
        λ vs q. record {
          loads = Keeps-refl _ s.load_rs;
          stores = Keeps-refl _ s.store_rs;
          iadds = Keeps-refl _ s.iadd_rs;
          imuls = Keeps-refl _ s.imul_rs;
          idivs = Keeps-refl _ s.idiv_rs;
          fadds = q;
          fmuls = Keeps-refl _ s.fmul_rs;
          fdivs = Keeps-refl _ s.fdiv_rs;
        }

  pub run_mul-IsSafe :
      (i : Instruction) (s : Stations Value) (m : Machine Value)
      → Post (IsSafe D s m) (run_mul D i s m)
  unfolding run_mul issue_mul
  run_mul-IsSafe i s m =
      search-IsSafe is_busy (issue_mul D i) (unit_count (codes "intmuls") m) s.imul_rs 4 s m
        (λ vs. record s { imul_rs = vs }) (λ j u n. integer-Untouched D i u n)
        λ vs q. record {
          loads = Keeps-refl _ s.load_rs;
          stores = Keeps-refl _ s.store_rs;
          iadds = Keeps-refl _ s.iadd_rs;
          imuls = q;
          idivs = Keeps-refl _ s.idiv_rs;
          fadds = Keeps-refl _ s.fadd_rs;
          fmuls = Keeps-refl _ s.fmul_rs;
          fdivs = Keeps-refl _ s.fdiv_rs;
        }

  pub run_float_mul-IsSafe :
      (i : Instruction) (s : Stations Value) (m : Machine Value)
      → Post (IsSafe D s m) (run_float_mul D i s m)
  unfolding run_float_mul issue_float_mul
  run_float_mul-IsSafe i s m =
      search-IsSafe is_busy (issue_float_mul D i) (unit_count (codes "fpmuls") m) s.fmul_rs 5 s m
        (λ vs. record s { fmul_rs = vs }) (λ j u n. float-Untouched D full i u n)
        λ vs q. record {
          loads = Keeps-refl _ s.load_rs;
          stores = Keeps-refl _ s.store_rs;
          iadds = Keeps-refl _ s.iadd_rs;
          imuls = Keeps-refl _ s.imul_rs;
          idivs = Keeps-refl _ s.idiv_rs;
          fadds = Keeps-refl _ s.fadd_rs;
          fmuls = q;
          fdivs = Keeps-refl _ s.fdiv_rs;
        }

  pub run_div-IsSafe :
      (i : Instruction) (s : Stations Value) (m : Machine Value)
      → Post (IsSafe D s m) (run_div D i s m)
  unfolding run_div
  run_div-IsSafe i s m =
      search-IsSafe is_busy (issue_div D i) (unit_count (codes "intdivs") m) s.idiv_rs 6 s m
        (λ vs. record s { idiv_rs = vs }) (issue_div-Untouched D i)
        λ vs q. record {
          loads = Keeps-refl _ s.load_rs;
          stores = Keeps-refl _ s.store_rs;
          iadds = Keeps-refl _ s.iadd_rs;
          imuls = Keeps-refl _ s.imul_rs;
          idivs = q;
          fadds = Keeps-refl _ s.fadd_rs;
          fmuls = Keeps-refl _ s.fmul_rs;
          fdivs = Keeps-refl _ s.fdiv_rs;
        }

  pub run_float_div-IsSafe :
      (i : Instruction) (s : Stations Value) (m : Machine Value)
      → Post (IsSafe D s m) (run_float_div D i s m)
  unfolding run_float_div
  run_float_div-IsSafe i s m =
      search-IsSafe is_busy (issue_float_div D i) (unit_count (codes "fpdivs") m) s.fdiv_rs 7 s m
        (λ vs. record s { fdiv_rs = vs }) (issue_float_div-Untouched D i)
        λ vs q. record {
          loads = Keeps-refl _ s.load_rs;
          stores = Keeps-refl _ s.store_rs;
          iadds = Keeps-refl _ s.iadd_rs;
          imuls = Keeps-refl _ s.imul_rs;
          idivs = Keeps-refl _ s.idiv_rs;
          fadds = Keeps-refl _ s.fadd_rs;
          fmuls = Keeps-refl _ s.fmul_rs;
          fdivs = q;
        }

  -- Whatever is issued but a store, where that is defined: a unit of any kind that is busy stays as
  -- it is, the value on the bus stays, and so do the program counter and the flag that ends the loop.
  pub run_reservation-IsSafe :
      (i : Instruction) (s : Stations Value) (m : Machine Value)
      → is_one_of i.opcode (store ∷ store_d ∷ []) ≡ false
      → Post (IsSafe D s m) (run_reservation D i s m)
  unfolding run_reservation
  run_reservation-IsSafe i s m h =
      let op = i.opcode in
      Post-if (eq_opcode op noop) (holds (BusyKept-refl s, Untouched-refl m)) (
        Post-if (is_one_of op (load ∷ load_d ∷ [])) (run_load-IsSafe i s m) (
          rw h (
            Post-if (is_one_of op (add ∷ sub ∷ [])) (run_add-IsSafe i s m) (
              Post-if (is_one_of op (beq ∷ bneq ∷ bgtz ∷ bltz ∷ move ∷ load_immediate ∷ []))
                (run_other-IsSafe i s m)
                (Post-if
                  (is_one_of op (add_d ∷ sub_d ∷ beq_d ∷ bneq_d ∷ bgtz_d ∷ bltz_d ∷ move_d ∷ []))
                  (run_float_add-IsSafe i s m)
                  (Post-if (eq_opcode op mul) (run_mul-IsSafe i s m) (
                    Post-if (eq_opcode op mul_d) (run_float_mul-IsSafe i s m) (
                      Post-if (eq_opcode op div) (run_div-IsSafe i s m)
                        (run_float_div-IsSafe i s m)))))))))
