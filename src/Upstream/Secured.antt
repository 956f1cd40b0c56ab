-- ===== src/Upstream/Secured.antt =====
-- When a connection to a server (crates/pgferry/src/session.rs) is encrypted, and what its certificate
-- is checked against.
use pgferry.Prelude.{
  ℕ, ◌≡◌, refl, ◌∙◌, ap, sym, String, Option, none, some, List, [], ◌∷◌, Bool, true, false,
  Option-cases, inl, inr, if◌then◌else◌,
}
use pgferry.Config.{EndpointConfig, RouteConfig, UpstreamTlsConfig}
use pgferry.Upstream.{
  Client, TlsConnector, Verifier, no_verify, against, connector, verify_server_cert, add_root,
  add_roots, certs_in, roots_from, load_roots, against_roots, with_ca, build_upstream_connector,
  connect_parts, own_or_else, own_or, make_factory_for,
}

module _ {Settings Cert Connection : Type 0}
    (client : Client Settings Cert (TlsConnector Cert) Connection) where
  add_root_one :
      (taken : Bool) (c : Cert) (rest : Option (List Cert)) (roots : List Cert)
      → add_root taken c rest ≡ some roots
      → (others : List Cert) × (rest ≡ some others) × (c ∷ others ≡ roots)
  add_root_one true c (some others) roots e = (others, refl, cc e)
  add_root_one true c none roots e = absurd (cc e)
  add_root_one false c rest roots e = absurd (cc e)

  add_roots_all : (cs roots : List Cert) → add_roots client cs ≡ some roots → cs ≡ roots
  unfolding add_roots
  add_roots_all [] roots e = cc e
  add_roots_all (c ∷ cs) roots e =
      let (others, rest, whole) = add_root_one (client.takes c) c (add_roots client cs) roots e in
      ap (λ l. c ∷ l) (add_roots_all cs others rest) ∙ whole

  -- The certificates of the CA file, when it is readable and they are all taken as roots.
  abbrev pub IsLoaded : String → List Cert → Type 0
  IsLoaded path roots =
      (bytes : List ℕ) × (client.read_file path ≡ some bytes) × (client.certs bytes ≡ some roots)

  load_roots-IsLoaded :
      (path : String) (roots : List Cert)
      → load_roots client path ≡ some roots
      → IsLoaded path roots
  unfolding load_roots
  load_roots-IsLoaded path roots e = elim (Option-cases (client.read_file path)) [
    | inl missing ↦
        let clash : none ≡ some roots =
          sym (ap (λ b. roots_from client (certs_in client b)) missing) ∙ e in
        absurd (cc clash)
    | inr (bytes, found) ↦
        let read : roots_from client (client.certs bytes) ≡ some roots =
          sym (ap (λ b. roots_from client (certs_in client b)) found) ∙ e in
        (bytes, found, taken (client.certs bytes) read)
  ]
    where
      taken : (o : Option (List Cert)) → roots_from client o ≡ some roots → o ≡ some roots
      taken none e = cc e
      taken (some cs) e = ap some (add_roots_all cs roots e)

  -- What the settings ask of the server's certificate.
  abbrev pub Checks : (List Cert → Cert → Bool) → UpstreamTlsConfig → Verifier Cert → Type 0
  Checks is_signed tls v =
      (path : String) × (roots : List Cert) × (tls.ca ≡ some path)
      × IsLoaded path roots
      × ((cert : Cert) → verify_server_cert is_signed v cert ≡ is_signed roots cert)

  with_ca-Checks :
      (is_signed : List Cert → Cert → Bool) (tls : UpstreamTlsConfig) (ca : Option String)
      (c : TlsConnector Cert)
      → tls.ca ≡ ca
      → with_ca client ca ≡ some c
      → Checks is_signed tls c.verifier
  unfolding with_ca verify_server_cert
  with_ca-Checks is_signed tls none c same e = absurd (cc e)
  with_ca-Checks is_signed tls (some path) c same e = elim (Option-cases (load_roots client path)) [
    | inl missing ↦
        let clash : none ≡ some c = sym (ap against_roots missing) ∙ e in absurd (cc clash)
    | inr (roots, found) ↦
        let built : some (connector (against roots)) ≡ some c = sym (ap against_roots found) ∙ e in
        let is : connector (against roots) ≡ c = cc built in
        (
          path,
          roots,
          same,
          load_roots-IsLoaded path roots found,
          λ cert. ap (λ k. verify_server_cert is_signed k.verifier cert) (sym is),
        )
  ]

  -- A connector that is not told to be insecure checks the server's certificate against exactly the
  -- certificates of a CA file that is configured and could be loaded; an insecure one takes them all.
  pub build_upstream_connector-Checks :
      (is_signed : List Cert → Cert → Bool) (tls : UpstreamTlsConfig) (c : TlsConnector Cert)
      → build_upstream_connector client tls ≡ some c
      → (tls.insecure ≡ false → Checks is_signed tls c.verifier)
        × (tls.insecure ≡ true
            → (cert : Cert) → verify_server_cert is_signed c.verifier cert ≡ true)
  unfolding build_upstream_connector verify_server_cert with_ca
  build_upstream_connector-Checks is_signed tls c e = (
    λ secure. with_ca-Checks is_signed tls tls.ca c refl (
        ap (λ b. if b then some (connector no_verify) else with_ca client tls.ca) (sym secure) ∙ e),
    λ insecure cert.
        let built : some (connector no_verify) ≡ some c =
          sym (ap (λ b. if b then some (connector no_verify) else with_ca client tls.ca) insecure)
          ∙ e in
        let is : connector no_verify ≡ c = cc built in
        ap (λ k. verify_server_cert is_signed k.verifier cert) (sym is),
  )

  -- A CA file that is configured, without `insecure`, and cannot be loaded is ignored: the pool's
  -- connections are made without a connector, just as if no TLS were configured at all.
  make_factory_for-plain :
      (e : EndpointConfig) (route : RouteConfig) (user : String) (database : Option String)
      (path : String)
      → let tls = own_or e.tls route.tls in
        tls.insecure ≡ false
        → tls.ca ≡ some path
        → load_roots client path ≡ none
        → make_factory_for client e route user database
          ≡ connect_parts client e.upstream user database
              (own_or_else e.password route.password)
              none
  unfolding make_factory_for build_upstream_connector with_ca
  make_factory_for-plain e route user database path secure given broken =
      let tls = own_or e.tls route.tls in
      let plain : build_upstream_connector client tls ≡ none =
        ap (λ b. if b then some (connector no_verify) else with_ca client tls.ca) secure
        ∙ ap (with_ca client) given
        ∙ ap against_roots broken in
      ap (connect_parts client e.upstream user database (own_or_else e.password route.password))
        plain
