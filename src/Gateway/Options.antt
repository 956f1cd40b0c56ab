-- ===== src/Gateway/Options.antt =====
-- The command line of crates/pgferry/examples/gateway.rs: the loop of `main` over the arguments. It
-- takes one argument or more in a round; here a round is one argument, with what the last one waits
-- for.
pub mod Printed
use Prim.Native.Char.{Char, code}
use pgferry.Prelude.{
  ℕ, String, Option, none, some, List, [], ◌∷◌, ◌++◌, ◌==◌, str_eq, if◌then◌else◌,
}

pub record Options : Type 0 where
  pub listen : String
  pub upstream : Option String
  pub endpoints : List (String × String)
  pub rw_split_primary : Option String
  pub shard_all : Option String
  pub deny : List String
  pub rewrites : List (String × String)
  pub mask_columns : List String

unfoldable pub defaults : Options
defaults = record {
  listen = "127.0.0.1:7432";
  upstream = none;
  endpoints = [];
  rw_split_primary = none;
  shard_all = none;
  deny = [];
  rewrites = [];
  mask_columns = [];
}

pub data Flag : Type 0 where
  listen upstream endpoint rw_split shard_all deny rewrite mask_col unknown : Flag

unfoldable pub flag_of : String → Flag
flag_of arg =
    if str_eq arg "--listen"
    then Flag.listen
    else if str_eq arg "--upstream"
    then Flag.upstream
    else if str_eq arg "--endpoint"
    then Flag.endpoint
    else if str_eq arg "--rw-split"
    then Flag.rw_split
    else if str_eq arg "--shard-all"
    then Flag.shard_all
    else if str_eq arg "--deny"
    then Flag.deny
    else if str_eq arg "--rewrite"
    then Flag.rewrite
    else if str_eq arg "--mask-col"
    then Flag.mask_col
    else Flag.unknown

-- `split_once` at a character.
abbrev pub put_first : Char → Option (String × String) → Option (String × String)
put_first c none = none
put_first c (some (before, after)) = some (String.◌∷◌ c before, after)

unfoldable pub split_once : ℕ → String → Option (String × String)
split_once sep String.[] = none
split_once sep (String.◌∷◌ c s) =
    let later = split_once sep s in if code c == sep then some ("", s) else put_first c later

-- One value of a flag that takes one; `none` is the panic of `expect`.
unfoldable pub with_value : Flag → String → Options → Option Options
unfolding split_once
with_value Flag.listen v o = some (record o { listen = v })
with_value Flag.upstream v o = some (record o { upstream = some v })
with_value Flag.endpoint v o = elim (split_once b'=' v) [
  | none ↦ none
  | some e ↦ some (record o { endpoints = o.endpoints ++ e ∷ [] })
]
with_value Flag.rw_split v o = some (record o { rw_split_primary = some v })
with_value Flag.shard_all v o = some (record o { shard_all = some v })
with_value Flag.deny v o = some (record o { deny = o.deny ++ v ∷ [] })
with_value Flag.mask_col v o = some (record o { mask_columns = o.mask_columns ++ v ∷ [] })
with_value Flag.rewrite v o = none
with_value Flag.unknown v o = none

-- What the arguments so far wait for: nothing, the value of a flag, or the second one of `--rewrite`.
pub data Waiting : Type 0 where
  nothing : Waiting
  value_of : Flag → Waiting
  replacement_of : String → Waiting

pub data Arguments : Type 0 where
  read : Options → Arguments
  panics : Arguments
  exits : ℕ → Arguments

unfoldable pub parse_args : Waiting → List String → Options → Arguments
unfolding flag_of with_value
parse_args nothing [] o = read o
parse_args (value_of flag) [] o = panics
parse_args (replacement_of from) [] o = panics
parse_args nothing (arg ∷ args) o =
    let known = parse_args (value_of (flag_of arg)) args o in
    elim (flag_of arg) [ Flag.unknown ↦ exits 2 | _ ↦ known ]
parse_args (value_of Flag.rewrite) (v ∷ args) o = parse_args (replacement_of v) args o
parse_args (value_of flag) (v ∷ args) o = elim (with_value flag v o) [
  | none ↦ panics
  | some o' ↦ parse_args nothing args o'
]
parse_args (replacement_of from) (to ∷ args) o =
    parse_args nothing args (record o { rewrites = o.rewrites ++ (from, to) ∷ [] })
