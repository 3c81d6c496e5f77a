-- ===== src/Pipeline/Flow/Decoded.antt =====
-- An arithmetic instruction of integers with the opcode in front, as `instructionDecode` finds it in
-- `IRBuffered`.
use mscs.Common.{
  ℕ, ◌<◌, ◌≡◌, refl, ap, ◌∙◌, true, false, some, [], ◌∷◌, ◌++◌, length, take-append, drop-append,
  if-false, arith,
}
use mscs.Common.Int.{ℤ}
use mscs.Common.Outcome.{Outcome, ok}
use mscs.Common.Text.{Text, codes, Free, find-Free, contains_text, text_eq}
use mscs.Simulator.Double.{Double}
use mscs.Simulator.Operand.{dot_d, c_string-lt}
use mscs.Simulator.Execute.{Opcode, decode, ltrim}
use mscs.Simulator.Assembly.{cons_trimmed, drop_spaces}
use mscs.Pipeline.Buffers.{is_empty}
use mscs.Pipeline.Cpu.{Cpu}
use mscs.Pipeline.WriteBack.{has_result}
use mscs.Pipeline.Alu.{alu_output, int_output}
use mscs.Pipeline.MemoryStage.{access}
use mscs.Pipeline.Decode.{opcode_end, decode_arithmetic, decode_opcode, instruction_decode}

-- The opcode, a space, and the operands.
abbrev pub instruction_line : Text → Text → Text
instruction_line op line = op ++ 32 ∷ line

drop_spaces-Free : (s : Text) → Free 32 s → drop_spaces s ≡ s
unfolding drop_spaces cons_trimmed
drop_spaces-Free [] h = refl
drop_spaces-Free (c ∷ []) h = ground arith
drop_spaces-Free (c ∷ d ∷ s) h = ap (cons_trimmed c) (drop_spaces-Free (d ∷ s) h.1)

drop_spaces-append :
    (s t : Text) (d : ℕ) → drop_spaces (d ∷ t) ≡ d ∷ t → drop_spaces (s ++ d ∷ t) ≡ s ++ d ∷ t
unfolding drop_spaces cons_trimmed
drop_spaces-append [] t d h = h
drop_spaces-append (c ∷ []) t d h = ap (cons_trimmed c) h
drop_spaces-append (c ∷ e ∷ s) t d h = ap (cons_trimmed c) (drop_spaces-append (e ∷ s) t d h)

pub ltrim-Free : (s : Text) → Free 32 s → ltrim (32 ∷ s) ≡ s
unfolding ltrim
ltrim-Free [] h = refl
ltrim-Free (c ∷ s) h = ground arith

pub drop_spaces-instruction_line :
    (op line : Text) (d : ℕ)
    → Free 32 (d ∷ line)
    → drop_spaces (instruction_line op (d ∷ line)) ≡ instruction_line op (d ∷ line)
unfolding cons_trimmed drop_spaces
drop_spaces-instruction_line op line d h =
    drop_spaces-append op (d ∷ line) 32 (ap (cons_trimmed 32) (drop_spaces-Free (d ∷ line) h))

opcode_end-suc : (n : ℕ) (s : Text) → 0 < n → opcode_end (some n) s ≡ ok n
unfolding opcode_end
opcode_end-suc n s h = ground arith

module _ (D : Double) where
  open D use {Value}

  -- An opcode of an instruction on integers that computes `operator`: what the stages do with it.
  pub record IsArithmetic (operator : ℤ → ℤ → Outcome ℤ) (op : Text) (o : Opcode) : Type 0 where
    pub known : decode op ≡ some o
    pub decodes :
        (line : Text) (c : Cpu Value)
        → decode_opcode D (decode op) op line c ≡ decode_arithmetic D line c
    pub computes :
        (c : Cpu Value)
        → alu_output D (some o) false c ≡ int_output operator c.temp_a_buffered c.temp_b_buffered
    pub passes : (c : Cpu Value) → access D op c ≡ ok c
    pub has : has_result op ≡ true
    pub integers : contains_text dot_d op ≡ false
    pub operands : text_eq op (codes "NOOP") ≡ false
    pub short : length op < 10
    pub there : 0 < length op
    pub opcode : is_empty op ≡ false
    pub free : Free 32 op

  -- The opcode and the text of the instruction in the latch.
  abbrev pub noted : Text → Text → Cpu Value → Cpu Value
  noted op line c = record c {
    ir_buffered = instruction_line op line;
    decode_execute = record c.decode_execute {
      instruction = instruction_line op line;
      opcode = op;
      is_double = false;
    };
  }

  decode_word :
      (operator : ℤ → ℤ → Outcome ℤ) (op line : Text) (d : ℕ) (o : Opcode) (c : Cpu Value)
      → IsArithmetic operator op o
      → Free 32 (d ∷ line)
      → c.ir_buffered ≡ instruction_line op (d ∷ line)
      → instruction_decode D c ≡ decode_arithmetic D (d ∷ line) (noted op (d ∷ line) c)
  unfolding instruction_decode
  decode_word operator op line d o c h free e =
      rw
        (
          e,
          drop_spaces-instruction_line op line d free,
          find-Free 32 op (d ∷ line) h.free,
          opcode_end-suc (length op) (instruction_line op (d ∷ line)) h.there,
          take-append op (32 ∷ d ∷ line),
          c_string-lt 10 op h.short,
          h.integers,
          drop-append op (32 ∷ d ∷ line),
          ltrim-Free (d ∷ line) free,
        )
        (ap (λ rest. decode_opcode D (decode op) op rest (noted op (d ∷ line) c))
            (if-false (text_eq op (codes "NOOP")) [] (d ∷ line) h.operands)
          ∙ h.decodes (d ∷ line) (noted op (d ∷ line) c))

  -- The decoder takes the operands apart, with the opcode in the latch.
  pub instruction_decode_lem :
      (operator : ℤ → ℤ → Outcome ℤ) (op line : Text) (o : Opcode) (c : Cpu Value)
      → IsArithmetic operator op o
      → Free 32 line
      → 0 < length line
      → c.ir_buffered ≡ instruction_line op line
      → instruction_decode D c ≡ decode_arithmetic D line (noted op line c)
  instruction_decode_lem operator op [] o c h free there e = elim there [ ]
  instruction_decode_lem operator op (d ∷ line) o c h free there e =
      decode_word operator op line d o c h free e
