-- ===== src/Examples/Logins.antt =====
-- The theorems on the admin console and on whole sessions, applied.
use pgferry.Prelude.{ℕ, ◌<◌, ◌≡◌, refl, String, some, List, [], ◌∷◌, ◌++◌, true, arith, length}
use pgferry.Prelude.Text.{codes, trim, trim_start, trim_end_by, equal}
use pgferry.Prelude.Decimal.{print}
use pgferry.Admin.{Encoders, View, Cells, command_of, outcome, dispatch, show_help, text_result}
use pgferry.Admin.Answers.{IsAnswer, CountsFields, dispatch-answers}
use pgferry.Cancel.{Key}
use pgferry.Cancel
use pgferry.Examples.{env, down, hooks, detached_session}
use pgferry.Runtime
use pgferry.Session.Events.{Event, from_client, new_pump}
use pgferry.Session.Startup.{Setup, Shared}
use pgferry.Session.Startup.Login.{startup, run_session}
use pgferry.Session.Startup.Leaves.{OthersApart, Gone, Left, run_session-leaves}
use pgferry.Wire.{DataRow, BackendMessage, ready_for_query, terminate}
use pgferry.Wire

abbrev flat : Cells → List ℕ
flat [] = []
flat (c ∷ cs) = c ++ flat cs

abbrev encoders : Encoders
encoders = record {
  take_row = λ cells. record { bytes = flat cells; field_count = length cells };
  to_lowercase = λ text. text;
  show_elapsed = λ elapsed. print elapsed;
}

counts : CountsFields encoders
counts cells = refl

abbrev view : View
view = record { pools = []; sessions = []; now = 9 }

abbrev help : List ℕ
help = codes " show help ;"

help_fits : length (outcome encoders view (command_of encoders help)) < down.room
unfolding outcome command_of show_help text_result trim trim_start trim_end_by equal
help_fits = omega arith

dispatch-answers_example :
    let r = dispatch encoders view help down in
    (ms : List BackendMessage) × IsAnswer ms
    × (r.0 ≡ true)
    × (r.1.sent ≡ down.sent ++ (ms ++ ready_for_query Wire.idle ∷ []))
dispatch-answers_example = dispatch-answers encoders counts view help down help_fits

abbrev pub virtual : Key
virtual = record { pid = 41; secret_key = 7 ∷ [] }

abbrev pub nobody_yet : Shared
nobody_yet = record { runtime = Runtime.new; router = [] }

abbrev pub setup : Setup
setup = record {
  admin_database = some "pgferry_admin";
  baseline = λ n id. some [];
  finish_authentication = λ parameters. true;
  others = λ s. s;
  version = "pgferry-0.1";
  encoders = encoders;
  admin_events = [];
}

abbrev visit : List (ℕ × Event)
visit = (1, from_client terminate) ∷ []

alone : OthersApart hooks env setup virtual visit
alone s h = h

not_there : Gone hooks env setup virtual visit nobody_yet
unfolding Cancel.get Runtime.new
not_there = (tt, refl)

abbrev pub login : List (String × String)
login = ("user", "app") ∷ ("database", "orders") ∷ []

run_session-leaves_example : Left hooks env setup virtual visit (
    run_session hooks env setup virtual visit "10.0.0.1:50000"
      (startup 3 0 login)
      detached_session
      nobody_yet)
unfolding new_pump
run_session-leaves_example =
    run_session-leaves hooks env setup virtual visit "10.0.0.1:50000" (startup 3 0 login)
      detached_session nobody_yet alone not_there refl
