-- ===== src/Pipeline/Stores.antt =====
-- The memory stage on opcodes that begin with `S`.
use mscs.Common.{
  ℕ, suc, ◌+◌, ◌≤◌, ◌<◌, ◌≡◌, ◌⊎◌, refl, sym, ap, ◌∙◌, true, false, [], ◌∷◌, ◌++◌, length, arith,
  if-true, leb, length-append,
}
use mscs.Common.Int.{pos, fits_int}
use mscs.Common.Outcome.{ok, bind-ok}
use mscs.Common.Text.{Text, starts_with, print_int, atoi-print_int}
use mscs.Simulator.Double.{Double}
use mscs.Simulator.Machine.{memory_size}
use mscs.Simulator.Transfer.{read_mem, write_mem, address_at}
use mscs.Simulator.Transfer.Memory.{read_mem-write_mem, write_mem-outside}
use mscs.Pipeline.Buffers.Texts.{Holds}
use mscs.Pipeline.Cpu.{Target, integer_target, Cpu, integer_register}
use mscs.Pipeline.Alu.{buffer_int}
use mscs.Pipeline.MemoryStage.{print_mem, stored_text, store_stage, access, memory_access}

module _ (D : Double) where
  open D use {Value}

  -- The instruction in front of the memory stage: its opcode begins with `S`, its target is the
  -- integer register r, and its result is n, with room for the digits of the register there.
  pub record Stores (r : Text) (n : ℕ) (c : Cpu Value) : Type 0 where
    pub rest : Text
    pub opcode : c.execute_mem_buffered.latch.opcode ≡ b'S' ∷ rest
    pub integer : c.execute_mem_buffered.latch.is_double ≡ false
    pub target : c.execute_mem_buffered.latch.target ≡ integer_target r
    pub result : Holds c.execute_mem_buffered.output (pos n)
    pub fits : fits_int (pos n) ≡ true
    pub room : n + suc (length (print_int (integer_register r c))) ≤ memory_size

  print_mem-Stores :
      (r : Text) (n : ℕ) (c : Cpu Value)
      → Stores r n c
      → (t : Text) → n + suc (length t) ≤ memory_size
      → print_mem D t c.execute_mem_buffered.output (record c { mem_wb = c.execute_mem_buffered })
        ≡ ok (record c { mem_wb = c.execute_mem_buffered; mem = write_mem n (t ++ 0 ∷ []) c.mem })
  unfolding print_mem buffer_int address_at
  print_mem-Stores r n c h t room =
      bind-ok _ _ (bind-ok _ _ h.result.text (atoi-print_int (pos n) h.fits))
        (bind-ok _ _ (if-true (leb (n + suc (length t)) memory_size) _ _ (ground arith)) refl)

  memory_access-Stores :
      (r : Text) (n : ℕ) (c : Cpu Value)
      → Stores r n c
      → memory_access D c
        ≡ ok (record c {
          mem_wb = c.execute_mem_buffered;
          mem = write_mem n (print_int (integer_register r c) ++ 0 ∷ []) c.mem;
        })
  unfolding memory_access access store_stage stored_text starts_with
  memory_access-Stores r n c h =
      let w = c.execute_mem_buffered in
      let c1 = record c { mem_wb = w } in
      ap (λ op. access D op c1) h.opcode
      ∙ bind-ok _ _
          (ap (λ d. stored_text D d w.latch.target c1) h.integer
            ∙ ap (λ (t : Target). stored_text D false t c1) h.target)
          (print_mem-Stores r n c h (print_int (integer_register r c)) h.room)

  -- An instruction in front of the memory stage whose opcode begins with `S`, with the integer
  -- register r as its target and the address n as its result, inside the memory: the stage writes
  -- the register's digits there and a NUL behind them. They are read back, every byte x outside of
  -- them, the registers and the program counter are as before. `SUB` begins with `S`, so it is
  -- treated so as well: it writes the old value of its target at the address that its difference is.
  pub memory_access-stored :
      (r : Text) (n : ℕ) (c : Cpu Value) (x : ℕ)
      → Stores r n c
      → (x < n) ⊎ (n + suc (length (print_int (integer_register r c))) ≤ x)
      → (c' : Cpu Value) × (memory_access D c ≡ ok c')
        × (read_mem (suc (length (print_int (integer_register r c)))) n c'.mem
            ≡ print_int (integer_register r c) ++ 0 ∷ [])
        × (c'.mem x ≡ c.mem x)
        × (c'.integer_registers ≡ c.integer_registers)
        × (c'.float_registers ≡ c.float_registers)
        × (c'.program_counter ≡ c.program_counter)
  memory_access-stored r n c x h out =
      let t = print_int (integer_register r c) in
      let size : length (t ++ 0 ∷ []) ≡ suc (length t) = omega (arith, length-append t (0 ∷ [])) in
      (
        _,
        memory_access-Stores r n c h,
        ap (λ k. read_mem k n (write_mem n (t ++ 0 ∷ []) c.mem)) (sym size)
            ∙ read_mem-write_mem n (t ++ 0 ∷ []) c.mem,
        write_mem-outside n (t ++ 0 ∷ []) c.mem x (rw size out),
        refl,
        refl,
        refl,
      )
