-- ===== src/Config/Started.antt =====
-- What a program that has started consists of (`main` of src/main.rs).
use you_spin_me.Prelude.{
  ◌≡◌, none, ◌⊎◌, ◌↔◌, inl, inr, refl, subst, sym, arith, false, some, Option-cases, ok,
  Result-cases, Bytes,
}
use you_spin_me.Time.{Timestamp, Jiff}
use you_spin_me.Config.{Config, resolve_namespace, allowed_paths, thresholds}
use you_spin_me.Config.Startup.{
  Stores, Outside, start_auth, load_cookie_key, stores, openbao_from_config, Settings, oidc,
  without_store, in_openbao, auth_of, ca_of,
}
use you_spin_me.Config.Chosen.{chained, AreSettings, unforced, not_forced}
use you_spin_me.Config.Main.{Platform, watched, Program, connect, watch, source_of, start}

module _ {C K : Type 0} (platform : Platform C) (outside : Outside K) (jiff : Jiff) where
  module _ (cfg : Config) (now : Timestamp) where
    -- Every step of the start succeeded, and gave the program its part.
    pub record IsStarted (p : Program C K) : Type 0 where
      pub source_is : source_of platform outside jiff cfg now ≡ ok p.source
      pub auth_is : start_auth outside cfg ≡ ok p.auth
      pub key_is : load_cookie_key outside cfg ≡ ok p.cookie_key
      pub stores_is : stores outside jiff cfg now ≡ ok p.stores
      pub listens : (platform.bind cfg.listen ≡ ok tt) × (platform.bind cfg.metrics_listen ≡ ok tt)
      pub settings_are : (p.thresholds ≡ thresholds cfg) × (p.allowed ≡ allowed_paths cfg)

    started-by : (p : Program C K) → IsStarted p → start platform outside jiff cfg now ≡ ok p
    unfolding start
    started-by p h =
        let (ui, ops) = h.listens in
        let (t, a) = h.settings_are in
        rw (h.source_is, h.auth_is, h.key_is, h.stores_is, ui, ops, sym t, sym a) refl

    start-IsStarted : (p : Program C K) → start platform outside jiff cfg now ≡ ok p → IsStarted p
    unfolding start
    start-IsStarted p h =
        let (source, s, h1) = chained _ _ _ h in
        let (auth, a, h2) = chained _ _ _ h1 in
        let (key, k, h3) = chained _ _ _ h2 in
        let (held, t, h4) = chained _ _ _ h3 in
        let (ui, u, h5) = chained _ _ _ h4 in
        let (ops, o, h6) = chained _ _ _ h5 in
        let built : record {
          source = source;
          thresholds = thresholds cfg;
          auth = auth;
          cookie_key = key;
          stores = held;
          allowed = allowed_paths cfg;
        }
            ≡ p =
          ground arith in
        subst IsStarted built (record {
          source_is = s;
          auth_is = a;
          key_is = k;
          stores_is = t;
          listens = (u, o);
          settings_are = (refl, refl);
        })

    -- The program starts, with these parts, exactly if every step succeeds and gives its part.
    pub start_iff : (p : Program C K) → (start platform outside jiff cfg now ≡ ok p) ↔ IsStarted p
    start_iff p = (start-IsStarted p, started-by p)

  -- What serves keys for real: they are watched in the cluster, users log in at an issuer, and values
  -- go to OpenBao or nowhere.
  pub record IsProduction (cfg : Config) (p : Program C K) : Type 0 where
    pub watches :
        (namespace : Bytes) × (client : C) × (resolve_namespace outside.read_to_string cfg
          ≡ ok namespace)
        × (platform.try_default ≡ ok client)
        × (p.source ≡ watched client namespace (allowed_paths cfg))
    pub asks : (s : Settings) × (p.auth ≡ oidc s) × AreSettings outside cfg s
    pub writes :
        ((p.stores ≡ without_store) × (cfg.openbao.openbao_addr ≡ none))
        ⊎ ((addr : Bytes) × (cfg.openbao.openbao_addr ≡ some addr)
            × (p.stores ≡ in_openbao addr (auth_of outside cfg.openbao)))

  connected :
      (client : C) → connect platform outside jiff ≡ ok client → platform.try_default ≡ ok client
  connected client h = elim (Result-cases platform.try_default) [
    | inl (c, e) ↦ ground arith
    | inr (x, e) ↦ absurd (ground arith)
  ]

  stores-without_demo :
      (cfg : Config) (now : Timestamp) (held : Stores)
      → cfg.demo ≡ false
      → stores outside jiff cfg now ≡ ok held
      → ((held ≡ without_store) × (cfg.openbao.openbao_addr ≡ none))
        ⊎ ((addr : Bytes) × (cfg.openbao.openbao_addr ≡ some addr)
            × (held ≡ in_openbao addr (auth_of outside cfg.openbao)))
  unfolding stores openbao_from_config
  stores-without_demo cfg now held demo h = elim (Option-cases cfg.openbao.openbao_addr) [
    | inl e ↦ inl (ground arith, e)
    | inr (addr, e) ↦ elim (Result-cases (ca_of outside cfg.openbao)) [
      | inr (x, c) ↦ absurd (ground arith)
      | inl (ca, c) ↦ elim (Result-cases (outside.http_client ca)) [
        | inr (x, u) ↦ absurd (ground arith)
        | inl (t, u) ↦ inr (addr, e, ground arith)
      ]
    ]
  ]

  module _ (cfg : Config) (now : Timestamp) (p : Program C K) where
    source_of-watched :
        cfg.demo ≡ false
        → source_of platform outside jiff cfg now ≡ ok p.source
        → (namespace : Bytes) × (client : C) × (resolve_namespace outside.read_to_string cfg
            ≡ ok namespace)
          × (platform.try_default ≡ ok client)
          × (p.source ≡ watched client namespace (allowed_paths cfg))
    unfolding source_of
    source_of-watched demo h =
        let there : watch platform outside jiff cfg ≡ ok p.source = ground arith in
        let (namespace, n, h1) = chained _ _ _ there in
        let (client, c, h2) = chained _ _ _ h1 in
        (namespace, client, n, connected client c, ground arith)

    -- Started neither for the demo nor with the insecure flag, the program watches the cluster, in
    -- the namespace that it resolved, asks the configured issuer who its users are, and writes to
    -- the configured OpenBao or, without an address, to no store.
    pub start-IsProduction :
        cfg.demo ≡ false
        → cfg.auth.insecure_dev_auth ≡ false
        → start platform outside jiff cfg now ≡ ok p
        → IsProduction cfg p
    start-IsProduction demo flag h =
        let started = start-IsStarted cfg now p h in
        record {
          watches = source_of-watched demo started.source_is;
          asks =
              unforced outside cfg (not_forced outside cfg flag (inl demo)) p.auth started.auth_is;
          writes = stores-without_demo cfg now p.stores demo started.stores_is;
        }
