-- ===== src/Pipeline/Assembly.antt =====
-- `parseAssemblyFile` of sim_p.cpp. It takes the last character off every line but the last one of
-- the file, which is the carriage return of a file with DOS line ends.
pub mod Lines
use mscs.Common.{◌+◌, List, [], ◌∷◌, ◌++◌}
use mscs.Common.Outcome.{Outcome, ok, undefined, ◌>>=◌}
use mscs.Common.Text.{Text}
use mscs.Simulator.Execute.{ltrim}
use mscs.Simulator.Assembly.{Assembly, strip_comment, take_label, drop_spaces}

-- `sLine.assign(cCommand,strlen(cCommand)-1)`: of an empty line the length is -1, and it throws.
unfoldable pub chop : Text → Outcome Text
chop [] = undefined
chop (c ∷ []) = ok []
chop (c ∷ d ∷ t) = do rest ← chop (d ∷ t); ok (c ∷ rest)

-- An instruction with no spaces round it; an empty one is skipped.
unfoldable pub push_trimmed : Text → Assembly → Assembly
push_trimmed [] a = a
push_trimmed (c ∷ t) a = record a {
  vprogram = a.vprogram ++ (c ∷ t) ∷ [];
  line_number = a.line_number + 1;
}

unfoldable pub parse_text : Text → Assembly → Assembly
unfolding strip_comment take_label push_trimmed ltrim drop_spaces
parse_text line a =
    let (rest, a') = take_label (strip_comment line) a in push_trimmed (drop_spaces (ltrim rest)) a'

unfoldable pub parse_lines : List Text → Assembly → Outcome Assembly
unfolding chop parse_text
parse_lines [] a = ok a
parse_lines (line ∷ []) a = ok (parse_text line a)
parse_lines (line ∷ next ∷ lines) a = do
  text ← chop line
  parse_lines (next ∷ lines) (parse_text text a)

unfoldable pub parse_assembly_file : List Text → Outcome Assembly
unfolding parse_lines
parse_assembly_file lines =
    parse_lines lines (record { mlabels = []; vprogram = []; line_number = 0 })
