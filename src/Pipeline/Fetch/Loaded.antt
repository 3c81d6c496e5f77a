-- ===== src/Pipeline/Fetch/Loaded.antt =====
-- The pipeline after `main` has read the files.
use mathlib.Core.Path.{subst}
use mathlib.Core.Bool.{false≢true}
use mscs.Common.{
  ℕ, ◌+◌, ◌≤◌, ◌<◌, Bool, true, false, Option, none, some, List, ◌≡◌, refl, ◌∙◌, length, arith,
}
use mscs.Common.Outcome.{ok, ◌>>=◌, Post, holds, Post-bind, Post-map, Post-eq_ok}
use mscs.Common.Text.{Text}
use mscs.Common.Dict.{AllValues}
use mscs.Simulator.Double.{Double}
use mscs.Simulator.Program.{Files}
use mscs.Pipeline.Cpu.{Cpu, initialize_registers}
use mscs.Pipeline.Cycle.{instruction_fetch, reset_run}
use mscs.Pipeline.Assembly.Lines.{parse_assembly_file-labels}
use mscs.Pipeline.Program.{
  blank_cpu, parse_arch_params, copy_memory_file, load_params, load_assembly, load_memory,
  load_files,
}
use mscs.Pipeline.Fetch.{InRange, instruction_fetch-InRange, cycles, cycles-InRange}

module _ (D : Double) where
  open D use {Value, zero_value}

  -- If the files have been read and the program has a line, it is in range.
  abbrev Good : Bool × Cpu Value → Type 0
  Good (good, c) = good ≡ true → 0 < length c.vprogram → InRange c

  load_params-counter :
      (file : Option (List Text)) (c : Cpu Value)
      → Post (λ r. r.1.program_counter ≡ c.program_counter) (load_params D file c)
  unfolding load_params
  load_params-counter none c = holds refl
  load_params-counter (some lines) c =
      Post-bind (parse_arch_params lines c.opcode_cycles) λ table _. holds refl

  load_assembly-Good :
      (file : Option (List Text)) (r : Bool × Cpu Value)
      → r.1.program_counter ≡ 0
      → Post Good (load_assembly D file r)
  unfolding load_assembly
  load_assembly-Good file (false, c) at = holds λ never some_line. absurd (false≢true never)
  load_assembly-Good none (true, c) at = holds λ never some_line. absurd (false≢true never)
  load_assembly-Good (some lines) (true, c) at =
      Post-map _ (parse_assembly_file-labels lines) λ a good. holds λ _ some_line. record {
        labels_within =
            subst (λ n. AllValues (λ t. t ≤ n) a.mlabels) good.counted good.labels_within;
        counter = omega (arith, at);
        some_line = some_line;
      }

  load_memory-Good :
      (file : Option (List ℕ)) (cdata : ℕ) (r : Bool × Cpu Value)
      → Good r
      → Post Good (load_memory D file cdata r)
  unfolding load_memory
  load_memory-Good file cdata (false, c) h = holds λ never some_line. absurd (false≢true never)
  load_memory-Good none cdata (true, c) h = holds λ never some_line. absurd (false≢true never)
  load_memory-Good (some bytes) cdata (true, c) h =
      Post-bind (copy_memory_file bytes cdata c.mem) λ f _. holds λ _ some_line.
        let r = h refl some_line in
        record { labels_within = r.labels_within; counter = r.counter; some_line = r.some_line }

  load_files-Good :
      (files : Files) (cdata : ℕ) (garbage : ℕ → ℕ) → Post Good (load_files D files cdata garbage)
  unfolding load_files
  load_files-Good files cdata garbage =
      let c = initialize_registers zero_value (blank_cpu D garbage) in
      Post-map (load_params D files.arch_params c >>= load_assembly D files.assembly)
        (Post-map (load_params D files.arch_params c) (load_params-counter files.arch_params c)
          λ r at. load_assembly-Good files.assembly r (at ∙ refl))
        λ r good. load_memory-Good files.init_mem cdata r good

  reset_run-InRange : (c : Cpu Value) → InRange c → InRange (reset_run c)
  unfolding reset_run
  reset_run-InRange c h = record {
    labels_within = h.labels_within;
    counter = h.counter;
    some_line = h.some_line;
  }

  -- Whatever the files are: if `main` gets to `executeProgram` with a program that has a line, then
  -- in every cycle that it comes to the fetch succeeds. It reads `vprogram[programCounter]`, or
  -- `vprogram[programCounter-1]` behind a stall at the end, only inside the program, also after
  -- branches.
  pub cycles-fetch :
      (files : Files) (cdata : ℕ) (garbage : ℕ → ℕ) (n : ℕ) (c c' : Cpu Value)
      → load_files D files cdata garbage ≡ ok (true, c)
      → 0 < length c.vprogram
      → cycles D n (reset_run c) ≡ ok c'
      → (fetched : Cpu Value) × (instruction_fetch (record c' { cycle_count = c'.cycle_count + 1 })
          ≡ ok fetched)
  cycles-fetch files cdata garbage n c c' loaded some_line run =
      let start : InRange c =
        Post-eq_ok (load_files D files cdata garbage) (load_files-Good files cdata garbage) loaded
          refl some_line in
      let there : InRange c' =
        Post-eq_ok (cycles D n (reset_run c))
          (cycles-InRange D n (reset_run c) (reset_run-InRange c start)) run in
      let (fetched, e, _) =
        instruction_fetch-InRange (record c' { cycle_count = c'.cycle_count + 1 })
          (record {
            labels_within = there.labels_within;
            counter = there.counter;
            some_line = there.some_line;
          }) in
      (fetched, e)
