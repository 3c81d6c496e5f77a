-- ===== src/Lib.antt =====
-- Models of C++ programs of this repository, with the theorems that make them correct.
--
-- Simulator models `B649 - Parallel Architecture & Programming/A2 - Instruction Level
-- Parallelism/sim_seq.cpp`, the sequential simulator of a small assembly language. `main` reads the
-- cycles of the opcodes (`parseArchParams`, Simulator/Params), the program (`parseAssemblyFile`,
-- Simulator/Assembly) and the memory (`copyMemoryFile`, Simulator/Program) into global variables,
-- the record `Machine` of Simulator/Machine; `executeProgram` (Simulator/Execute) fetches a line,
-- splits off its opcode and calls one of thirteen handlers: Simulator/Arithmetic (`executeADD`,
-- `executeSUB`, `executeMUL`, `executeDIV`, `executeMOVE`, `executeNOOP`), Simulator/Transfer
-- (`executeL`, `executeLI`, `executeS`) and Simulator/Branch (`executeBEQ`, `executeBNEQ`,
-- `executeBGTZ`, `executeBLTZ`). Simulator/Operand reads operands; Simulator/Frame, Simulator/Run
-- and the modules below the others hold the proofs; Simulator/Tests has runs and instances.
--
-- A handler maps a machine to an `Outcome` (Common/Outcome): a machine, an error that the code
-- reports, or `undefined` where the code does what C++ leaves undefined (a write past a character
-- array, an access outside the memory, `int` overflow, division by 0) or throws. An `int` is an
-- unbounded integer whose range is checked where the code computes; cycles (`long`) are unbounded.
-- A `std::string` is a list of character codes and a `std::map` an association list (Common). Text
-- files are the lists of their lines. A line that is too long for the buffer is modelled in the two
-- parsers of sim_seq.cpp (`line_room`, `is_long`), the first of which sim_p.cpp has too; in the
-- program files of sim_p.cpp and the text files of sim_t.cpp each line is taken to be shorter.
-- `double` is not modelled: its type and operations are the parameter `Double`.
-- What is written to `cout` is left out. The `while` loop of `executeProgram` runs on fuel, and a
-- result that has run out of it is told apart (`running`); the relation `Reach` is that of its
-- rounds. A parser that never returns is the error `never_returns`.
--
-- Pipeline models `sim_p.cpp` of the same folder, the simulator of a pipeline with the stages IF, ID,
-- EX, MEM and WB. The state is the record `Cpu` of Pipeline/Cpu: the registers, memory and program,
-- the latches `decodeExecute`, `executeMem` and `MemWB`, a buffered copy of each, and the flags
-- `bStallIF` and `bFreeze`. A round of `executeProgram` (Pipeline/Cycle) runs `instructionFetch`,
-- `instructionDecode` with the decoders (Pipeline/Decode, Pipeline/Decode/Compare),
-- `instructionExecute` (Pipeline/Alu), `memoryAccessCycle` (Pipeline/MemoryStage) and
-- `WriteBackCycle` (Pipeline/WriteBack), each on the buffered latch in front of it, and then copies
-- the latches. The decoders ask `detecthazard` (Pipeline/Hazard) for each register that they read;
-- operands and results are text in arrays such as `cTempA` (Pipeline/Buffers), byte by byte.
-- Pipeline/Assembly and Pipeline/Program are `parseAssemblyFile` and `main`. `void *target` is the
-- data type `Target`, and its use as the other kind of pointer is `undefined`; the program counter
-- and the counters are natural numbers. The loop runs on fuel and says whether it has ended; the
-- theorems speak of any number of cycles. Pipeline/Frame, Pipeline/Fetch, Pipeline/Freeze,
-- Pipeline/Flow, Pipeline/Reads and Pipeline/Stores hold the proofs. `displayRegsiterFileStatus`
-- only writes text, and `initializeTempRegisters` is not called; both are left out.
--
-- TicTacToe models `Google Code Jam 2013/Qualification Round/tictactoetomek/tictactoetomek.cpp`:
-- `buildWinningSequence` fills a set of winning positions, `play` reads an input file line by line,
-- scans the characters of each board into the positions of both players and an empty count, and
-- after the fourth row asks `winner` for the verdict. TicTacToe/Board says independently what a
-- board is and which verdict it has; TicTacToe/Winning, TicTacToe/Marks, TicTacToe/Cases and
-- TicTacToe/Lengths hold the proofs. An index of a string past its terminating 0 is `undefined`.
--
-- Permutations models `B565 - Data Mining/Tic Tac Toe Permutations/permute.cpp`: `permute` tries
-- the unmarked characters one after the other, marks one, calls itself and unmarks it, and
-- `winner` plays each full order and counts who wins. The recursion is on `length - level`.
-- Permutations/Counts holds the proofs. `at` and `bitset::set` throw out of range, which is
-- `undefined`. The time that `main` measures is left out.
--
-- FairSquare models `Google Code Jam 2013/Qualification Round/fairandsquare/fairandsquare.cpp`:
-- `ispalindrome`, the loop of `main` that builds the set of fair and square numbers, where the
-- square root of a number is the parameter `root`, and the loop over the test cases.
-- FairSquare/Palindrome and FairSquare/Count hold the proofs. A loop that would not end without an
-- effect is `undefined`, as C++ has it.
--
-- KMeans models `B565 - Data Mining/kmeans/kmeans.cpp` and `BreastCancerRecord.h`: the global tables
-- are the record `Clusters` (KMeans), a round of `main` is `assignmentStep`, which gives each record
-- the nearest centroid, and `computeNewCentroid`; KMeans/Files has `readInputFile`,
-- `initializeCentroids`, `calculatePPV` and `main`. An `unordered_map` is the list of its pairs in
-- the order in which an iterator meets them; that order, and `rand`, are parameters. Distances are
-- sums of squares of `int`s, checked for overflow, and compare as `double`s as they do as numbers.
-- The rounds run on fuel, and the result says whether they have converged. The quotient that is
-- printed is left out. KMeans/Nearest, KMeans/Twins and KMeans/Majority hold the proofs.
--
-- Tomasulo models `sim_t.h`, `sim_t.cpp`, `InstructionDecode.cpp`, `LoadReservationStation.cpp` and
-- `WriteBack.cpp` of the folder of sim_seq.cpp, the simulator of Tomasulo's algorithm.
-- Tomasulo/Types has the records: registers with the unit that they wait for, instructions,
-- functional units, the shared globals (`Machine`) and the eight vectors of units (`Stations`).
-- A round of `executeProgram` (Tomasulo/Cycle) runs `WriteBack::run` (Tomasulo/Registers), then
-- `execute` of every unit in order (Tomasulo/Units for the multipliers and dividers,
-- Tomasulo/Adders, Tomasulo/MemoryUnits), then `Issue`: a fetch, `InstructionDecode::decode`
-- (Tomasulo/Decode) and `LoadReservationStation::run` (Tomasulo/Reservation for one unit,
-- Tomasulo/Issue for the ladder of opcodes), then the display of the registers, whose buffers are
-- checked. Tomasulo/Parameters, Tomasulo/Listing and Tomasulo/Program are the parsers and `main`.
-- A `void *` is the data type `Pointer`, its use as the other kind of register is `undefined`, and
-- so is the read of the member of `final_val` that was not written last. The integer and the float
-- classes share their text, which is parametrised by the register file (`File`). The loop runs on
-- fuel and says whether it has ended. Tomasulo/Frame, Bus, Stage, Ending, Reserved, Safety, Floats,
-- Stuck, Units/Progress, Units/Result, Registers/Written, Adders/Moves, Issue/Wiped and Decode/Base hold the
-- proofs. `printVQ` and the messages only write text and are left out.
--
-- Not modelled: the network programs (sockets, threads, libpcap), the numeric programs over
-- `double`, and what is not C++.
pub mod Common
pub mod FairSquare
pub mod KMeans
pub mod Permutations
pub mod Pipeline
pub mod Simulator
pub mod TicTacToe
pub mod Tomasulo
