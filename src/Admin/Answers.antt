-- ===== src/Admin/Answers.antt =====
-- What the admin console (crates/pgferry/src/admin.rs) answers a query with.
use pgferry.Prelude.{
  ℕ, suc, ◌-◌, ◌≤◌, ◌<◌, ◌≡◌, refl, sym, ap, ◌∙◌, ◌⊎◌, inl, inr, String, some, List, [], ◌∷◌, ◌++◌,
  map, Bool, true, false, arith, length, length-append, if◌then◌else◌,
}
use pgferry.Prelude.Decimal.{print}
use pgferry.Prelude.Text.{codes, equal}
use pgferry.Admin.{
  Encoders, View, Cells, text_column, text_result, outcome, command_of, dispatch, send_each,
  show_pools, show_clients, show_stats, show_help, unknown, pool_row, client_row, stats_row,
  pool_columns, client_columns, stats_columns,
}
use pgferry.Session.{Downstream}
use pgferry.Session.Effects.{try_send}
use pgferry.Wire.{
  BackendMessage, DataRow, ErrorInfo, row_description, data_row, command_complete, error_response,
  ready_for_query,
}
use pgferry.Wire
use mathlib.Core.List.{append_assoc, append-nil}

-- Every row has the given number of fields.
abbrev pub AllWide : ℕ → List DataRow → Type 0
AllWide n [] = Unit {0}
AllWide n (r ∷ rs) = (r.field_count ≡ n) × AllWide n rs

-- A result set: the description of its columns, rows of as many fields, and a tag with their number;
-- or an error; and nothing else.
abbrev pub IsAnswer : List BackendMessage → Type 0
IsAnswer ms =
    ((names : List String) × (rows : List DataRow) × AllWide (length names) rows
      × (ms
          ≡ row_description (map text_column names)
            ∷ (map data_row rows ++ command_complete (codes "SHOW " ++ print (length rows)) ∷ [])))
    ⊎ ((info : ErrorInfo) × (ms ≡ error_response info ∷ []))

-- pgwire's encoder counts the fields that it is given.
abbrev pub CountsFields : Encoders → Type 0
CountsFields enc = (cells : Cells) → (enc.take_row cells).field_count ≡ length cells

module _ (enc : Encoders) (counts : CountsFields enc) where
  abbrev encoded : List Cells → List DataRow
  encoded [] = []
  encoded (r ∷ rs) = enc.take_row r ∷ encoded rs

  map-encoded :
      (rows : List Cells)
      → map (λ (r : Cells). data_row (enc.take_row r)) rows ≡ map data_row (encoded rows)
  map-encoded [] = refl
  map-encoded (r ∷ rs) = ap (λ ms. data_row (enc.take_row r) ∷ ms) (map-encoded rs)

  length-encoded : (rows : List Cells) → length (encoded rows) ≡ length rows
  length-encoded [] = refl
  length-encoded (r ∷ rs) = ap suc (length-encoded rs)

  encoded-AllWide :
      {A : Type 0} (n : ℕ) (row : A → Cells) (xs : List A)
      → ((x : A) → length (row x) ≡ n)
      → AllWide n (encoded (map row xs))
  encoded-AllWide n row [] w = tt
  encoded-AllWide n row (x ∷ xs) w = (counts (row x) ∙ w x, encoded-AllWide n row xs w)

  text_result-IsAnswer :
      (names : List String) (rows : List Cells)
      → AllWide (length names) (encoded rows)
      → IsAnswer (text_result enc names rows "SHOW")
  unfolding text_result
  text_result-IsAnswer names rows w =
      let described = row_description (map text_column names) in
      let tagged = λ (n : ℕ). command_complete (codes "SHOW " ++ print n) ∷ [] in
      let sent = map-encoded rows in
      let count = sym (length-encoded rows) in
      inl (
        names,
        encoded rows,
        w,
        ap (λ ms. described ∷ (ms ++ tagged (length rows))) sent
            ∙ ap (λ n. described ∷ (map data_row (encoded rows) ++ tagged n)) count,
      )

  if-IsAnswer :
      (b : Bool) (xs ys : List BackendMessage)
      → IsAnswer xs
      → IsAnswer ys
      → IsAnswer (if b then xs else ys)
  if-IsAnswer true xs ys a b = a
  if-IsAnswer false xs ys a b = b

  abbrev help_texts : List String
  help_texts = "SHOW POOLS" ∷ "SHOW CLIENTS" ∷ "SHOW STATS" ∷ "SHOW HELP" ∷ []

  outcome-IsAnswer : (v : View) (command : List ℕ) → IsAnswer (outcome enc v command)
  unfolding outcome show_pools show_clients show_stats show_help pool_row client_row stats_row
  outcome-IsAnswer v command =
      let is = λ (text : String). equal command (codes text) in
      let help =
        text_result-IsAnswer ("command" ∷ []) (map (λ (text : String). codes text ∷ []) help_texts)
          (encoded-AllWide 1 (λ (text : String). codes text ∷ []) help_texts λ text. refl) in
      if-IsAnswer (is "show pools") _ _
        (text_result-IsAnswer pool_columns _
          (encoded-AllWide 8 (pool_row enc v.sessions) v.pools λ p. refl))
        (if-IsAnswer (is "show clients") _ _
          (text_result-IsAnswer client_columns _
            (encoded-AllWide 7 (client_row enc v.now) v.sessions λ s. refl))
          (if-IsAnswer (is "show stats") _ _
            (text_result-IsAnswer stats_columns _
              (encoded-AllWide 9 (stats_row enc) v.pools λ p. refl))
            (if-IsAnswer (is "show help") _ _ help
              (if-IsAnswer (is "help") _ _ help (inr (unknown enc command, refl))))))

  try_send-room :
      (m : BackendMessage) (d : Downstream)
      → 0 < d.room
      → try_send m d ≡ some (record d { room = d.room - 1; sent = d.sent ++ m ∷ [] })
  unfolding try_send
  try_send-room m d b = ground (arith, b)

  send_each-room :
      (ms : List BackendMessage) (d : Downstream)
      → length ms ≤ d.room
      → ((send_each enc ms d).0 ≡ true) × ((send_each enc ms d).1.sent ≡ d.sent ++ ms)
  unfolding send_each
  send_each-room [] d b = (refl, sym (append-nil d.sent))
  send_each-room (m ∷ ms) d b =
      let d' = record d { room = d.room - 1; sent = d.sent ++ m ∷ [] } in
      let (goes, all) = send_each-room ms d' (omega (arith, b)) in
      let taken = try_send-room m d (omega (arith, b)) in
      let step : send_each enc (m ∷ ms) d ≡ send_each enc ms d' = rw (send_each, taken) refl in
      (ap (λ r. r.0) step ∙ goes, ap (λ r. r.1.sent) step ∙ all ∙ append_assoc d.sent (m ∷ []) ms)

  -- A query that the client's connection has room to answer is answered with one result set, whose
  -- rows all have the fields that it describes and whose tag counts them, or with one error; then
  -- with one ReadyForQuery, and the session goes on. The condition on pgwire's row encoder is that it
  -- counts the fields that it is given.
  pub dispatch-answers :
      (v : View) (sql : List ℕ) (d : Downstream)
      → length (outcome enc v (command_of enc sql)) < d.room
      → let r = dispatch enc v sql d in
        (ms : List BackendMessage) × IsAnswer ms
        × (r.0 ≡ true)
        × (r.1.sent ≡ d.sent ++ (ms ++ ready_for_query Wire.idle ∷ []))
  unfolding dispatch
  dispatch-answers v sql d b =
      let ms = outcome enc v (command_of enc sql) in
      let whole = ms ++ ready_for_query Wire.idle ∷ [] in
      let fits : length whole ≤ d.room =
        omega (arith, b, length-append ms (ready_for_query Wire.idle ∷ [])) in
      let (goes, all) = send_each-room whole d fits in
      (ms, outcome-IsAnswer v (command_of enc sql), goes, all)
