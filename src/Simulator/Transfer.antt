-- ===== src/Simulator/Transfer.antt =====
-- `executeL`, `executeLI` and `executeS`: loads and stores of decimal text in the memory.
pub mod Memory
pub mod Encode
pub mod Store
pub mod Reload
use mscs.Common.{
  ℕ, zero, suc, ◌+◌, ◌-◌, ◌≤◌, ◌==◌, Bool, true, false, ◌&&◌, leb, ltb, if◌then◌else◌, Option, none,
  some, List, [], ◌∷◌, ◌++◌, length, take, drop, replicate,
}
use mscs.Common.Int.{ℤ, pos, negsuc, ◌+ℤ◌}
use mscs.Common.Outcome.{
  Outcome, ok, fail, undefined, ◌>>=◌, ◌>>◌, guard, invalid_register, syntax_error,
}
use mscs.Common.Text.{Text, find, find_from, contains_text, atoi, print_int}
use mscs.Simulator.Double.{Double}
use mscs.Simulator.Operand.{c_string, dot_d}
use mscs.Simulator.Machine.{
  Machine, memory_size, validate_register, integer_register, float_register, set_integer, set_float,
  charge,
}

-- `memcpy` from and to the memory.
unfoldable pub read_mem : ℕ → ℕ → (ℕ → ℕ) → List ℕ
read_mem zero a mem = []
read_mem (suc n) a mem = mem a ∷ read_mem n (a + 1) mem

unfoldable pub write_mem : ℕ → List ℕ → (ℕ → ℕ) → ℕ → ℕ
write_mem a [] mem = mem
write_mem a (b ∷ bs) mem = λ x. if x == a then b else write_mem (a + 1) bs mem x

-- The text that an array of characters holds: up to its first NUL.
unfoldable pub until_nul : List ℕ → Text
until_nul [] = []
until_nul (b ∷ bs) = if b == 0 then [] else b ∷ until_nul bs

-- `memset(&number,'\0',n+1); sprintf(number,..)`: the first `n` bytes of the array.
unfoldable pub padded : ℕ → Text → List ℕ
padded n t = take n (t ++ replicate n 0)

-- `&mem[*is + offset]`, for `n` bytes inside the memory.
unfoldable pub address_at : ℕ → ℤ → Outcome ℕ
address_at n (negsuc a) = undefined
address_at n (pos a) = if leb (a + n) memory_size then ok a else undefined

unfoldable pub address : ℕ → ℤ → ℤ → Outcome ℕ
unfolding address_at ◌+ℤ◌
address n base offset = address_at n (base +ℤ offset)

-- `find(..) > 0`, or the message "Syntax Error".
unfoldable pub positive : Option ℕ → Outcome ℕ
positive none = fail syntax_error
positive (some zero) = fail syntax_error
positive (some (suc k)) = ok (suc k)

module _ {V : Type 0} where
  -- The first operand of a load or a store, into `char reg[4]`, and the rest of the line.
  unfoldable pub first_register : Bool → Text → Machine V → Outcome (Text × Text)
  unfolding positive c_string validate_register find
  first_register is_double line m = do
    i ← positive (find b',' line)
    reg ← c_string 4 (take i line)
    guard (validate_register is_double reg m) invalid_register
    ok (reg, drop (suc i) line)

  -- `offset(base)`. The code writes the NUL to `reg[i2-i]`, one place behind the end of the name.
  unfoldable pub offset_and_base : Text → Machine V → Outcome (Text × Text)
  unfolding positive c_string validate_register find find_from
  offset_and_base line m = do
    i ← positive (find b'(' line)
    offset ← c_string 10 (take i line)
    i2 ← positive (find_from b')' i line)
    base ← c_string 3 (take (i2 - i - 1) (drop (suc i) line))
    guard (validate_register false base m) invalid_register
    ok (offset, base)

  unfoldable pub load_integer : Text → Text → Text → Machine V → Outcome (Machine V)
  unfolding atoi address read_mem until_nul integer_register set_integer
  load_integer target offset base m = do
    k ← atoi offset
    a ← address 4 (integer_register base m) k
    v ← atoi (until_nul (read_mem 4 a m.mem))
    ok (set_integer target v m)

  -- `char number[5]` holds four characters.
  unfoldable pub store_integer : Text → Text → Text → Machine V → Outcome (Machine V)
  unfolding atoi address write_mem padded print_int c_string integer_register
  store_integer source offset base m = do
    number ← c_string 5 (print_int (integer_register source m))
    k ← atoi offset
    a ← address 4 (integer_register base m) k
    ok (record m { mem = write_mem a (padded 4 number) m.mem })

module _ (D : Double) where
  open D use {Value, zero_value, parse, print}

  unfoldable pub load_float : Text → Text → Text → Machine Value → Outcome (Machine Value)
  unfolding atoi address read_mem until_nul integer_register set_float
  load_float target offset base m = do
    k ← atoi offset
    a ← address 8 (integer_register base m) k
    ok (set_float target (parse (until_nul (read_mem 8 a m.mem))) m)

  -- `char number[9]` holds eight characters.
  unfoldable pub store_float : Text → Text → Text → Machine Value → Outcome (Machine Value)
  unfolding atoi address write_mem padded c_string float_register integer_register
  store_float source offset base m = do
    number ← c_string 9 (print (float_register zero_value source m))
    k ← atoi offset
    a ← address 8 (integer_register base m) k
    ok (record m { mem = write_mem a (padded 8 number) m.mem })

  unfoldable pub execute_l : Text → Text → Machine Value → Outcome (Machine Value)
  unfolding first_register offset_and_base load_integer load_float charge
  execute_l op line m = do
    let is_double = contains_text dot_d op
    (target, rest) ← first_register is_double line m
    (offset, base) ← offset_and_base rest m
    m' ← if is_double then load_float target offset base m else load_integer target offset base m
    charge op m'

  unfoldable pub execute_s : Text → Text → Machine Value → Outcome (Machine Value)
  unfolding first_register offset_and_base store_integer store_float charge
  execute_s op line m = do
    let is_double = contains_text dot_d op
    (source, rest) ← first_register is_double line m
    (offset, base) ← offset_and_base rest m
    m' ← if is_double then store_float source offset base m else store_integer source offset base m
    charge op m'

  -- `immediate[sLine.length()-i+1]` is the last place written, of twenty.
  unfoldable pub execute_li : Text → Text → Machine Value → Outcome (Machine Value)
  unfolding first_register c_string atoi set_integer charge
  execute_li op line m = do
    (target, rest) ← first_register false line m
    immediate ← c_string 18 rest
    v ← atoi immediate
    charge op (set_integer target v m)
