-- ===== src/Simulator/Transfer/Store.antt =====
-- Stores: the bytes they change, what a load reads back, and where they leave the buffers.
use mscs.Common.{◌≤◌, ◌<◌, ◌≡◌, refl, true, false, ltb, length, arith}
use mscs.Common.Outcome.{undefined}
use mscs.Common.Text.{Text, Free, contains_text}
use mscs.Simulator.Double.{Double}
use mscs.Simulator.Operand.{c_string, dot_d}
use mscs.Simulator.Operand.Encode.{IsOperand}
use mscs.Simulator.Machine.{Machine, validate_register, float_register}
use mscs.Simulator.Transfer.{store_float, execute_s, execute_l}
use mscs.Simulator.Transfer.Encode.{
  IsOffset, transfer_line, offset_base, first_register-transfer_line, offset_and_base-offset_base,
}

module _ (D : Double) where
  open D use {Value, zero_value, print}

  module _ (op reg offset base : Text) (m : Machine Value) (h : IsOperand 4 reg)
      (off : IsOffset offset) (free : Free b')' base) where
    -- A load or a store through a base register whose name has three characters or more, such as
    -- `R10`, writes past the end of `char reg[4]`, whatever the machine.
    pub transfer-long_base :
        validate_register (contains_text dot_d op) reg m ≡ true
        → 3 ≤ length base
        → (execute_l D op (transfer_line reg offset base) m ≡ undefined)
          × (execute_s D op (transfer_line reg offset base) m ≡ undefined)
    unfolding execute_l execute_s c_string
    transfer-long_base valid long =
        let full : ltb (length base) 3 ≡ false = ground arith in
        (
          rw
              (
                first_register-transfer_line (contains_text dot_d op) reg (offset_base offset base)
                    m h valid,
                offset_and_base-offset_base offset base m off free,
                full,
              )
              refl,
          rw
              (
                first_register-transfer_line (contains_text dot_d op) reg (offset_base offset base)
                    m h valid,
                offset_and_base-offset_base offset base m off free,
                full,
              )
              refl,
        )

    -- A store of a `double` whose `%f` text has nine characters or more (10.0 is the text
    -- `10.000000`, -1.0 is `-1.000000`) writes past the end of `char number[9]`.
    pub execute_s-long_number :
        contains_text dot_d op ≡ true
        → validate_register true reg m ≡ true
        → validate_register false base m ≡ true
        → length base < 3
        → 9 ≤ length (print (float_register zero_value reg m))
        → execute_s D op (transfer_line reg offset base) m ≡ undefined
    unfolding execute_s store_float c_string
    execute_s-long_number double valid valid_base short long =
        let full : ltb (length (print (float_register zero_value reg m))) 9 ≡ false =
          ground arith in
        let room : ltb (length base) 3 ≡ true = ground arith in
        rw
          (
            double,
            first_register-transfer_line true reg (offset_base offset base) m h valid,
            offset_and_base-offset_base offset base m off free,
            room,
            valid_base,
            full,
          )
          refl
