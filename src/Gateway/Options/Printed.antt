-- ===== src/Gateway/Options/Printed.antt =====
-- Options written out as arguments of the gateway (crates/pgferry/examples/gateway.rs), and read back.
use Prim.Native.Char.{code}
use Prim.Native.String.{◌++◌ as ◌<+>◌}
use text.Mathlib.TextLemmas.{nil-append, cons-append}
use mathlib.Core.List.{append_assoc, append-nil}
use pgferry.Prelude.{
  ◌≡◌, refl, ◌∙◌, ap, sym, String, Option, none, some, List, [], ◌∷◌, ◌++◌, false, ◌==◌, arith,
}
use pgferry.Gateway.Options.{
  Options, defaults, flag_of, put_first, split_once, with_value, nothing, read, parse_args,
}

-- The arguments for one field, in front of others.
abbrev print_optional : String → Option String → List String → List String
print_optional flag none rest = rest
print_optional flag (some v) rest = flag ∷ v ∷ rest

abbrev print_each : String → List String → List String → List String
print_each flag [] rest = rest
print_each flag (v ∷ vs) rest = flag ∷ v ∷ print_each flag vs rest

abbrev print_endpoints : List (String × String) → List String → List String
print_endpoints [] rest = rest
print_endpoints ((id, connstring) ∷ es) rest =
    "--endpoint" ∷ (id <+> ("=" <+> connstring)) ∷ print_endpoints es rest

abbrev print_rewrites : List (String × String) → List String → List String
print_rewrites [] rest = rest
print_rewrites ((from, to) ∷ ws) rest = "--rewrite" ∷ from ∷ to ∷ print_rewrites ws rest

abbrev pub print_args : Options → List String
print_args o =
    "--listen"
    ∷ o.listen
    ∷ print_optional "--upstream" o.upstream (
        print_endpoints o.endpoints (
          print_optional "--rw-split" o.rw_split_primary (
            print_optional "--shard-all" o.shard_all (
              print_each "--deny" o.deny
                (print_rewrites o.rewrites (print_each "--mask-col" o.mask_columns []))))))

-- An endpoint's name is what stands before the first `=`.
abbrev pub NoEquals : String → Type 0
NoEquals String.[] = Unit {0}
NoEquals (String.◌∷◌ c s) = (code c == b'=' ≡ false) × NoEquals s

abbrev pub AllNamed : List (String × String) → Type 0
AllNamed [] = Unit {0}
AllNamed ((id, connstring) ∷ es) = NoEquals id × AllNamed es

equals_first : (connstring : String) → "=" <+> connstring ≡ String.◌∷◌ "=" connstring
equals_first connstring =
    cons-append "=" "" connstring ∙ ap (String.◌∷◌ "=") (nil-append connstring)

split_once-equals :
    (id connstring : String)
    → NoEquals id
    → split_once b'=' (id <+> ("=" <+> connstring)) ≡ some (id, connstring)
unfolding split_once
split_once-equals String.[] connstring h =
    ap (split_once b'=') (nil-append ("=" <+> connstring) ∙ equals_first connstring)
split_once-equals (String.◌∷◌ c s) connstring (ne, h) =
    ap (split_once b'=') (cons-append c s ("=" <+> connstring))
    ∙ rw ne (ap (put_first c) (split_once-equals s connstring h))

-- Each group of arguments is read into its field.
read_each_deny :
    (vs rest : List String) (o : Options)
    → parse_args nothing (print_each "--deny" vs rest) o
      ≡ parse_args nothing rest (record o { deny = o.deny ++ vs })
unfolding parse_args flag_of with_value
read_each_deny [] rest o =
    ap (λ l. parse_args nothing rest (record o { deny = l })) (sym (append-nil o.deny))
read_each_deny (v ∷ vs) rest o =
    read_each_deny vs rest (record o { deny = o.deny ++ v ∷ [] })
    ∙ ap (λ l. parse_args nothing rest (record o { deny = l })) (append_assoc o.deny (v ∷ []) vs)

read_each_mask :
    (vs : List String) (o : Options)
    → parse_args nothing (print_each "--mask-col" vs []) o
      ≡ read (record o { mask_columns = o.mask_columns ++ vs })
unfolding parse_args flag_of with_value
read_each_mask [] o =
    ap (λ l. read (record o { mask_columns = l })) (sym (append-nil o.mask_columns))
read_each_mask (v ∷ vs) o =
    read_each_mask vs (record o { mask_columns = o.mask_columns ++ v ∷ [] })
    ∙ ap (λ l. read (record o { mask_columns = l })) (append_assoc o.mask_columns (v ∷ []) vs)

read_rewrites :
    (ws : List (String × String)) (rest : List String) (o : Options)
    → parse_args nothing (print_rewrites ws rest) o
      ≡ parse_args nothing rest (record o { rewrites = o.rewrites ++ ws })
unfolding parse_args flag_of
read_rewrites [] rest o =
    ap (λ l. parse_args nothing rest (record o { rewrites = l })) (sym (append-nil o.rewrites))
read_rewrites ((from, to) ∷ ws) rest o =
    read_rewrites ws rest (record o { rewrites = o.rewrites ++ (from, to) ∷ [] })
    ∙ ap (λ l. parse_args nothing rest (record o { rewrites = l }))
        (append_assoc o.rewrites ((from, to) ∷ []) ws)

read_endpoint :
    (id connstring : String) (rest : List String) (o : Options)
    → NoEquals id
    → parse_args nothing ("--endpoint" ∷ (id <+> ("=" <+> connstring)) ∷ rest) o
      ≡ parse_args nothing rest (record o { endpoints = o.endpoints ++ (id, connstring) ∷ [] })
unfolding parse_args flag_of with_value
read_endpoint id connstring rest o h = ground (arith, split_once-equals id connstring h)

read_endpoints :
    (es : List (String × String)) (rest : List String) (o : Options)
    → AllNamed es
    → parse_args nothing (print_endpoints es rest) o
      ≡ parse_args nothing rest (record o { endpoints = o.endpoints ++ es })
read_endpoints [] rest o h =
    ap (λ l. parse_args nothing rest (record o { endpoints = l })) (sym (append-nil o.endpoints))
read_endpoints ((id, connstring) ∷ es) rest o (named, h) =
    read_endpoint id connstring (print_endpoints es rest) o named
    ∙ read_endpoints es rest (record o { endpoints = o.endpoints ++ (id, connstring) ∷ [] }) h
    ∙ ap (λ l. parse_args nothing rest (record o { endpoints = l }))
        (append_assoc o.endpoints ((id, connstring) ∷ []) es)

read_optional_upstream :
    (u : Option String) (rest : List String) (o : Options)
    → o.upstream ≡ none
    → parse_args nothing (print_optional "--upstream" u rest) o
      ≡ parse_args nothing rest (record o { upstream = u })
unfolding parse_args flag_of with_value
read_optional_upstream none rest o e =
    ap (λ u. parse_args nothing rest (record o { upstream = u })) e
read_optional_upstream (some u) rest o e = refl

read_optional_split :
    (u : Option String) (rest : List String) (o : Options)
    → o.rw_split_primary ≡ none
    → parse_args nothing (print_optional "--rw-split" u rest) o
      ≡ parse_args nothing rest (record o { rw_split_primary = u })
unfolding parse_args flag_of with_value
read_optional_split none rest o e =
    ap (λ u. parse_args nothing rest (record o { rw_split_primary = u })) e
read_optional_split (some u) rest o e = refl

read_optional_shards :
    (u : Option String) (rest : List String) (o : Options)
    → o.shard_all ≡ none
    → parse_args nothing (print_optional "--shard-all" u rest) o
      ≡ parse_args nothing rest (record o { shard_all = u })
unfolding parse_args flag_of with_value
read_optional_shards none rest o e =
    ap (λ u. parse_args nothing rest (record o { shard_all = u })) e
read_optional_shards (some u) rest o e = refl

-- Options whose endpoints have no `=` in their names can be written out as arguments that the
-- gateway reads back as just these options: each flag sets its own field, and what is given several
-- times keeps its order.
pub parse_args-print_args :
    (o : Options) → AllNamed o.endpoints → parse_args nothing (print_args o) defaults ≡ read o
unfolding parse_args flag_of with_value defaults
parse_args-print_args o h =
    let masks = print_each "--mask-col" o.mask_columns [] in
    let rewrites = print_rewrites o.rewrites masks in
    let denies = print_each "--deny" o.deny rewrites in
    let shards = print_optional "--shard-all" o.shard_all denies in
    let split = print_optional "--rw-split" o.rw_split_primary shards in
    let o₀ = record defaults { listen = o.listen } in
    let o₁ = record o₀ { upstream = o.upstream } in
    let o₂ = record o₁ { endpoints = o.endpoints } in
    let o₃ = record o₂ { rw_split_primary = o.rw_split_primary } in
    let o₄ = record o₃ { shard_all = o.shard_all } in
    let o₅ = record o₄ { deny = o.deny } in
    let o₆ = record o₅ { rewrites = o.rewrites } in
    read_optional_upstream o.upstream (print_endpoints o.endpoints split) o₀ refl
    ∙ read_endpoints o.endpoints split o₁ h
    ∙ read_optional_split o.rw_split_primary shards o₂ refl
    ∙ read_optional_shards o.shard_all denies o₃ refl
    ∙ read_each_deny o.deny rewrites o₄
    ∙ read_rewrites o.rewrites masks o₅
    ∙ read_each_mask o.mask_columns o₆
