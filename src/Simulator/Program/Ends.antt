-- ===== src/Simulator/Program/Ends.antt =====
-- What `main` starts the program with.
use mathlib.Core.Path.{subst}
use mscs.Common.{
  ℕ, ◌+◌, ◌≤◌, ◌≡◌, inl, inr, refl, ◌∙◌, Bool, true, false, Option, none, some, List, arith,
}
use mscs.Common.Int.{pos}
use mscs.Common.Outcome.{ok, ◌>>=◌, Post, holds, fails, Post-bind, Post-map, Post-eq_ok}
use mathlib.Core.Bool.{false≢true}
use mscs.Common.Text.{Text}
use mscs.Common.Dict.{AllValues}
use mscs.Simulator.Double.{Double}
use mscs.Simulator.Machine.{Machine, initialize_registers}
use mscs.Simulator.Execute.{fetch_at, at_end}
use mscs.Simulator.Params.{parse_arch_params}
use mscs.Simulator.Assembly.Lines.{parse_assembly_file-IsParsed}
use mscs.Simulator.Run.{InRange, Reach, Reach-InRange, fetch-InRange}
use mscs.Simulator.Program.{
  copy_memory_file, Files, assembly_next, memory_next, load_params, load_assembly, load_memory,
  blank_machine, load_files,
}

module _ (D : Double) where
  open D use {Value, zero_value}

  -- If the files have been read, the machine is in range.
  abbrev Good : Bool × Machine Value → Type 0
  Good (good, m) = good ≡ true → InRange m

  load_assembly-Good :
      (file : Option (List Text)) (m : Machine Value)
      → m.program_counter ≡ pos 0
      → Post Good (load_assembly D file m)
  unfolding load_assembly
  load_assembly-Good none m at = holds λ never. absurd (false≢true never)
  load_assembly-Good (some lines) m at = elim (parse_assembly_file-IsParsed lines) [
    | inl (_, (a, parsed, good)) ↦ rw parsed (
        holds λ _. record {
          labels_within =
              subst (λ n. AllValues (λ t. t ≤ n) a.mlabels) good.counted good.labels_within;
          line = 0;
          counter = at;
          within = omega arith;
        })
    | inr (_, never) ↦ rw never fails
  ]

  load_params-counter :
      (file : Option (List Text)) (m : Machine Value)
      → Post (λ r. r.1.program_counter ≡ m.program_counter) (load_params D file m)
  unfolding load_params
  load_params-counter none m = holds refl
  load_params-counter (some lines) m =
      Post-bind (parse_arch_params lines m.opcode_cycles) λ table _. holds refl

  assembly_next-Good :
      (files : Files) (r : Bool × Machine Value)
      → r.1.program_counter ≡ pos 0
      → Post Good (assembly_next D files r)
  unfolding assembly_next
  assembly_next-Good files (true, m) at = load_assembly-Good files.assembly m at
  assembly_next-Good files (false, m) at = holds λ never. absurd (false≢true never)

  InRange-mem : (m : Machine Value) (f : ℕ → ℕ) → InRange m → InRange (record m { mem = f })
  InRange-mem m f r = record {
    labels_within = r.labels_within;
    line = r.line;
    counter = r.counter;
    within = r.within;
  }

  load_memory-Good :
      (file : Option (List ℕ)) (cdata : ℕ) (m : Machine Value)
      → InRange m
      → Post Good (load_memory D file cdata m)
  unfolding load_memory
  load_memory-Good none cdata m h = holds λ never. absurd (false≢true never)
  load_memory-Good (some bytes) cdata m h =
      Post-bind (copy_memory_file bytes cdata m.mem) λ f _. holds λ _. InRange-mem m f h

  memory_next-Good :
      (files : Files) (cdata : ℕ) (r : Bool × Machine Value)
      → Good r
      → Post Good (memory_next D files cdata r)
  unfolding memory_next
  memory_next-Good files cdata (true, m) h = load_memory-Good files.init_mem cdata m (h refl)
  memory_next-Good files cdata (false, m) h = holds λ never. absurd (false≢true never)

  load_files-Good :
      (files : Files) (cdata : ℕ) (garbage : ℕ → ℕ) → Post Good (load_files D files cdata garbage)
  unfolding load_files
  load_files-Good files cdata garbage =
      let m = initialize_registers zero_value (blank_machine D garbage) in
      Post-map (load_params D files.arch_params m >>= assembly_next D files)
        (Post-map (load_params D files.arch_params m) (load_params-counter files.arch_params m)
          λ r at. assembly_next-Good files r (at ∙ refl))
        λ r good. memory_next-Good files cdata r good

  -- Whatever the files are: if `main` gets to `executeProgram`, then before every round that the
  -- program comes to the program counter is a line of the program, so that `vprogram[..]` is never
  -- read out of range; and the instruction count is the number of rounds.
  pub load_files-fetch :
      (files : Files) (cdata : ℕ) (garbage : ℕ → ℕ) (m m' : Machine Value) (n : ℕ)
      → load_files D files cdata garbage ≡ ok (true, m)
      → Reach D m n m'
      → at_end m'.program_counter m'.vprogram ≡ false
      → ((line : Text) × (fetch_at m'.program_counter m'.vprogram ≡ some line))
        × (m'.instruction_count ≡ m.instruction_count + n)
  load_files-fetch files cdata garbage m m' n loaded run more =
      let start =
        Post-eq_ok (load_files D files cdata garbage) (load_files-Good files cdata garbage) loaded
          refl in
      let (within, count) = Reach-InRange D m m' n start run in
      (fetch-InRange D m' within more, count)
