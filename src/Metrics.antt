-- ===== src/Metrics.antt =====
-- The `/metrics` endpoint (crates/pgferry/src/metrics.rs): the exposition text, and the HTTP handler.
-- Text is its bytes. What a socket delivers is the list of its reads.
pub mod Labels
pub mod Reads
use pgferry.Prelude.{
  ℕ, ◌*◌, ◌-◌, ◌^◌, String, Option, none, some, List, [], ◌∷◌, ◌++◌, Bool, true, false, ◌&&◌, ◌||◌,
  ltb, if◌then◌else◌, is_some, length,
}
use pgferry.Prelude.Decimal.{print}
use pgferry.Prelude.Text.{codes, utf8, join, replace, first_line, words, after_first, equal}
use pgferry.Pool
use pgferry.Pool.{Pool, PoolKey}
use pgferry.Runtime.{RuntimeState, sessions_active}

unfoldable pub escape : List ℕ → List ℕ
unfolding replace
escape value =
    replace b'\n' (codes "\\n") (replace b'"' (codes "\\\"") (replace b'\\' (codes "\\\\") value))

abbrev pub database_or_empty : Option String → String
database_or_empty none = ""
database_or_empty (some d) = d

unfoldable pub labels : PoolKey → List ℕ
unfolding escape
labels key = join (
    codes "route=\""
    ∷ escape (utf8 key.route)
    ∷ codes "\",user=\""
    ∷ escape (utf8 key.user)
    ∷ codes "\",database=\""
    ∷ escape (utf8 (database_or_empty key.database))
    ∷ codes "\""
    ∷ [])

-- An `i64`, from its bit pattern.
unfoldable pub print_signed : ℕ → List ℕ
unfolding print
print_signed n = if ltb n (2 ^ 63) then print n else b'-' ∷ print (2 ^ 64 - n)

-- The macro `counter!`.
unfoldable pub counter : List ℕ → String → ℕ → List ℕ
unfolding print
counter labels name n = join (
    codes "# TYPE pgferry_pool_"
    ∷ codes name
    ∷ codes "_total counter\npgferry_pool_"
    ∷ codes name
    ∷ codes "_total{"
    ∷ labels
    ∷ codes "} "
    ∷ print n
    ∷ codes "\n"
    ∷ [])

unfoldable pub gauge : List ℕ → String → List ℕ → List ℕ
gauge labels name value = join (
    codes "# TYPE pgferry_pool_"
    ∷ codes name
    ∷ codes " gauge\npgferry_pool_"
    ∷ codes name
    ∷ codes "{"
    ∷ labels
    ∷ codes "} "
    ∷ value
    ∷ codes "\n"
    ∷ [])

-- What one pool adds to the text.
unfoldable pub render_pool : Pool → List ℕ
unfolding labels counter gauge print_signed print
render_pool p =
    let l = labels p.key in
    let m = p.metrics in
    join (
      counter l "checkouts" m.checkouts
      ∷ counter l "checkouts_reused" m.reused
      ∷ counter l "connections_created" m.created
      ∷ counter l "checkins" m.checked_in
      ∷ counter l "connections_dropped" m.dropped
      ∷ counter l "connections_evicted" m.evicted
      ∷ counter l "stale_probes" m.probed
      ∷ gauge l "connections_active" (print_signed m.active)
      ∷ gauge l "connections_idle" (print (length p.idle))
      ∷ gauge l "clients_waiting" (print_signed m.waiting)
      ∷ gauge l "max_size" (print p.config.max_size)
      ∷ [])

unfoldable pub render_pools : List Pool → List ℕ
unfolding render_pool
render_pools [] = []
render_pools (p ∷ ps) = render_pool p ++ render_pools ps

unfoldable pub render : RuntimeState → List Pool → List ℕ
unfolding render_pools print sessions_active
render state pools = join (
    codes "# TYPE pgferry_sessions_active gauge\npgferry_sessions_active "
    ∷ print (sessions_active state)
    ∷ codes "\n# TYPE pgferry_sessions_total counter\npgferry_sessions_total "
    ∷ print state.sessions_total
    ∷ codes "\n"
    ∷ render_pools pools
    ∷ [])

-- How reading the head of a request ends: the client closed or the read failed; the head is there;
-- or the handler still reads.
pub data Head : Type 0 where
  gone : Head
  head waiting : List ℕ → Head

unfoldable pub has_head : List ℕ → Bool
unfolding after_first
has_head buf = is_some (after_first (codes "\r\n\r\n") buf) || ltb (16 * 1024) (length buf)

-- `none` is a read that fails, an empty read the end of the stream.
unfoldable pub read_head : List ℕ → List (Option (List ℕ)) → Head
unfolding has_head
read_head buf [] = Head.waiting buf
read_head buf (none ∷ reads) = Head.gone
read_head buf (some [] ∷ reads) = Head.gone
read_head buf (some (c ∷ cs) ∷ reads) =
    let later = read_head (buf ++ c ∷ cs) reads in
    if has_head (buf ++ c ∷ cs) then Head.head (buf ++ c ∷ cs) else later

abbrev word_or_empty : List (List ℕ) → List ℕ × List (List ℕ)
word_or_empty [] = ([], [])
word_or_empty (w ∷ ws) = (w, ws)

-- The method and the path of a request line.
unfoldable pub method_and_path : List ℕ → List ℕ × List ℕ
unfolding first_line words
method_and_path text =
    let (method, rest) = word_or_empty (words [] (first_line text)) in
    (method, (word_or_empty rest).0)

abbrev status_and_body : Bool → RuntimeState → List Pool → List ℕ × List ℕ
status_and_body true state pools = (codes "200 OK", render state pools)
status_and_body false state pools = (codes "404 Not Found", codes "not found\n")

-- `text` is the head as `from_utf8_lossy` reads it.
unfoldable pub respond : RuntimeState → List Pool → List ℕ → List ℕ
unfolding render method_and_path equal print
respond state pools text =
    let (method, path) = method_and_path text in
    let (status, body) =
      status_and_body (equal method (codes "GET") && equal path (codes "/metrics")) state pools in
    join (
      codes "HTTP/1.1 "
      ∷ status
      ∷ codes "\r\nContent-Type: text/plain; version=0.0.4\r\nContent-Length: "
      ∷ print (length body)
      ∷ codes "\r\nConnection: close\r\n\r\n"
      ∷ body
      ∷ [])

-- The response that is written, if any.
unfoldable pub handle :
    (List ℕ → List ℕ) → RuntimeState → List Pool → List (Option (List ℕ)) → Option (List ℕ)
unfolding read_head respond
handle from_utf8_lossy state pools reads = elim (read_head [] reads) [
  | Head.head buf ↦ some (respond state pools (from_utf8_lossy buf))
  | Head.gone ↦ none
  | Head.waiting buf ↦ none
]
