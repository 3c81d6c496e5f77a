-- ===== src/Pipeline/Freeze/Execute.antt =====
-- The execute stage on the first, on a later, and on the last cycle of an instruction.
use mathlib.Core.Path.{subst}
use mscs.Common.{
  if-true, if-false, ℕ, suc, Bool, true, false, not, ◌&&◌, ltb, if◌then◌else◌, List, ◌≡◌, refl, sym,
  ap, ◌∙◌, arith,
}
use mscs.Common.Int.{ℤ, pos, ◌-ℤ◌, eqb_ℤ, pos_part}
use mscs.Common.Outcome.{Outcome, ok, Post, holds, Post-bind}
use mscs.Simulator.Double.{Double}
use mscs.Simulator.Operand.{c_string, c_string-eq_ok}
use mscs.Simulator.Execute.{decode}
use mscs.Pipeline.Cpu.{Latch, no_data, Cpu, cycles_of, subscript_cycles}
use mscs.Pipeline.Alu.{alu_output, finish, begin, count_down, instruction_execute}
use mscs.Pipeline.Freeze.{Executes}

one_less : (k : ℕ) → pos (suc k) -ℤ pos 1 ≡ pos k
unfolding ◌-ℤ◌
one_less k = ground arith

module _ (D : Double) where
  open D use {Value}

  pub begin-frozen : (total : ℤ) (c : Cpu Value) → c.freeze ≡ true → begin D total c ≡ c
  unfolding begin
  begin-frozen total c h = if-false (ltb 1 (pos_part total) && not c.freeze) _ c (ground arith)

  pub begin-single : (total : ℤ) (c : Cpu Value) → total ≡ pos 1 → begin D total c ≡ c
  unfolding begin
  begin-single total c e = if-false (ltb 1 (pos_part total) && not c.freeze) _ c (ground arith)

  pub begin-first :
      (k : ℕ) (total : ℤ) (c : Cpu Value)
      → total ≡ pos (suc (suc k))
      → c.freeze ≡ false
      → begin D total c ≡ record c { execute_cycle = total; freeze = true }
  unfolding begin
  begin-first k total c e h = if-true (ltb 1 (pos_part total) && not c.freeze) _ c (ground arith)

  pub count_down-more :
      (k : ℕ) (c : Cpu Value)
      → c.execute_cycle ≡ pos (suc (suc k))
      → count_down D c ≡ ok (record c { execute_cycle = pos (suc k) })
  unfolding count_down
  count_down-more k c e =
      let left : c.execute_cycle -ℤ pos 1 ≡ pos (suc k) =
        ap (λ v. v -ℤ pos 1) e ∙ one_less (suc k) in
      let test : eqb_ℤ (c.execute_cycle -ℤ pos 1) (pos 0) ≡ false =
        ap (λ v. eqb_ℤ v (pos 0)) left ∙ (ground arith) in
      if-false _ _ _ test ∙ ap (λ v. ok (record c { execute_cycle = v })) left

  pub count_down-last :
      (c : Cpu Value)
      → c.execute_cycle ≡ pos 1
      → count_down D c ≡ finish D (record c { execute_cycle = pos 0; freeze = false })
  unfolding count_down
  count_down-last c e =
      let left : c.execute_cycle -ℤ pos 1 ≡ pos 0 = ap (λ v. v -ℤ pos 1) e ∙ one_less 0 in
      let test : eqb_ℤ (c.execute_cycle -ℤ pos 1) (pos 0) ≡ true =
        ap (λ v. eqb_ℤ v (pos 0)) left ∙ (ground arith) in
      if-true _ _ _ test ∙ ap (λ v. finish D (record c { execute_cycle = v; freeze = false })) left

  -- Behind the test on the cycles.
  abbrev pub run : Cpu Value → Outcome (Cpu Value)
  run c = if c.freeze then count_down D c else finish D c

  pub run-frozen : (c : Cpu Value) → c.freeze ≡ true → run c ≡ count_down D c
  run-frozen c h = if-true c.freeze (count_down D c) (finish D c) h

  finish-Executes :
      (c : Cpu Value) (latch : Latch) (left : ℤ) (frozen : Bool)
      → Executes latch frozen left no_data c
      → Post
          (λ c'.
            (output : List ℕ) × Executes latch frozen left
              (record { latch = latch; output = output })
              c')
          (finish D c)
  unfolding finish
  finish-Executes c latch left frozen h =
      Post-bind
        (alu_output D (decode c.decode_execute_buffered.opcode) c.decode_execute_buffered.is_double
          c)
        λ output _. holds (
          output,
          record {
            buffered = h.buffered;
            freeze = h.freeze;
            left_over = h.left_over;
            ahead = ap (λ (l : Latch). record { latch = l; output = output }) h.buffered;
          },
        )

  pub execute-first :
      (c : Cpu Value) (k : ℕ) (latch : Latch)
      → cycles_of latch.opcode c ≡ pos (suc (suc k))
      → Executes latch false c.execute_cycle no_data c
      → Post (Executes latch true (pos (suc k)) no_data) (instruction_execute D c)
  unfolding instruction_execute subscript_cycles
  execute-first c k latch known h =
      Post-bind (c_string 10 c.decode_execute_buffered.opcode) λ name e.
        let same : name ≡ latch.opcode =
          c_string-eq_ok 10 c.decode_execute_buffered.opcode e
          ∙ ap (λ (l : Latch). l.opcode) h.buffered in
        let total : cycles_of name c ≡ pos (suc (suc k)) = ap (λ n. cycles_of n c) same ∙ known in
        let c1 = subscript_cycles name c in
        let c2 = record c1 { execute_cycle = cycles_of name c; freeze = true } in
        let first : run (begin D (cycles_of name c) c1)
            ≡ ok (record c2 { execute_cycle = pos (suc k) }) =
          ap run (begin-first k (cycles_of name c) c1 total h.freeze)
          ∙ count_down-more k c2 total in
        subst (Post (Executes latch true (pos (suc k)) no_data)) (sym first) (
          holds
            (record { buffered = h.buffered; freeze = refl; left_over = refl; ahead = h.ahead }))

  pub execute-middle :
      (c : Cpu Value) (k : ℕ) (latch : Latch)
      → Executes latch true (pos (suc (suc k))) no_data c
      → Post (Executes latch true (pos (suc k)) no_data) (instruction_execute D c)
  unfolding instruction_execute subscript_cycles
  execute-middle c k latch h = Post-bind (c_string 10 c.decode_execute_buffered.opcode) λ name e.
      let c1 = subscript_cycles name c in
      let next : run (begin D (cycles_of name c) c1)
          ≡ ok (record c1 { execute_cycle = pos (suc k) }) =
        ap run (begin-frozen (cycles_of name c) c1 h.freeze)
        ∙ run-frozen c1 h.freeze
        ∙ count_down-more k c1 h.left_over in
      subst (Post (Executes latch true (pos (suc k)) no_data)) (sym next) (
        holds
          (record { buffered = h.buffered; freeze = h.freeze; left_over = refl; ahead = h.ahead }))

  abbrev pub Finished : Latch → Cpu Value → Type 0
  Finished latch c =
      (output : List ℕ) × Executes latch false (pos 0) (record { latch = latch; output = output }) c

  pub execute-last :
      (c : Cpu Value) (latch : Latch)
      → Executes latch true (pos 1) no_data c
      → Post (Finished latch) (instruction_execute D c)
  unfolding instruction_execute subscript_cycles
  execute-last c latch h = Post-bind (c_string 10 c.decode_execute_buffered.opcode) λ name e.
      let c1 = subscript_cycles name c in
      let c2 = record c1 { execute_cycle = pos 0; freeze = false } in
      let next : run (begin D (cycles_of name c) c1) ≡ finish D c2 =
        ap run (begin-frozen (cycles_of name c) c1 h.freeze)
        ∙ run-frozen c1 h.freeze
        ∙ count_down-last c1 h.left_over in
      subst (Post (Finished latch)) (sym next) (
        finish-Executes c2 latch (pos 0) false
          (record { buffered = h.buffered; freeze = refl; left_over = refl; ahead = h.ahead }))
