-- ===== src/Tests/OptionTests.antt =====
-- The theorem on the command line at a concrete input.
use crashinfo.Base.{true, [], ◌∷◌, ◌⊎◌, inl, refl, Bytes, codes, negsuc, List}
use crashinfo.Log.Status.{nothing_met}
use crashinfo.Conf.Value.{State}
use crashinfo.Conf.Line.{initial_state}
use crashinfo.Options.{CommandOption, directive_text, config_file, process, run_options}
use crashinfo.Options.Ends.{Settled, run_options-Settled}

abbrev files : Bytes → Bytes ⊎ Bytes
files path = inl (codes "No such file or directory")

abbrev given : List CommandOption
given =
    process (codes "12")
    ∷ directive_text (codes "core_output = /x")
    ∷ config_file (codes "/etc/y")
    ∷ []

abbrev start_state : State
start_state = initial_state true

run_options-Settled_example :
    Settled files given (negsuc 0) start_state (run_options files given (negsuc 0) start_state)
run_options-Settled_example =
    run_options-Settled files given (negsuc 0) start_state (nothing_met, refl)
