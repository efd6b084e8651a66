-- ===== src/Signing/Idempotent.antt =====
-- Signing the same request again, failures, and what the store keeps over any sequence of calls.
use secure_sshlinux_client.Base.{
  ◌≡◌, refl, sym, ap, ◌∙◌, inl, inr, Bool, true, Option, none, some, List, [], ◌∷◌, if◌then◌else◌,
  Option-cases, Bool-cases, Text, codes, join, text_eq, text_eq_iff, text_eq_refl,
  dict_get-dict_set,
}
use secure_sshlinux_client.Errors.{Result, ok, raised, Exception}
use secure_sshlinux_client.Settings.{Settings}
use secure_sshlinux_client.Store.{IdempotencyStore, Row, HashPayload, get, put}
use secure_sshlinux_client.Signing.{
  World, SignArguments, run_ssh_keygen, hash_payload, store_certificate, sign_certificate,
}

abbrev fst_of : Result (Text × Bool) × IdempotencyStore → Result (Text × Bool)
fst_of p = p.0

abbrev snd_of : Result (Text × Bool) × IdempotencyStore → IdempotencyStore
snd_of p = p.1

-- The row that a call writes.
abbrev pub row_of : World → SignArguments → Text → Row
row_of world args certificate = record {
  cert_type = args.cert_type;
  key_id = args.key_id;
  principals = join (codes ",") args.principals;
  ttl = args.ttl;
  certificate = certificate;
  created_at = world.now;
}

get-put :
    (h k : Text) (world : World) (args : SignArguments) (c : Text) (store : IdempotencyStore)
    → get (put h args.cert_type args.key_id args.principals args.ttl c world.now store) k
      ≡ (if text_eq h k then some (row_of world args c) else get store k)
unfolding get put
get-put h k world args c store = dict_get-dict_set store h k (row_of world args c)

module _ (build_hash : HashPayload → Text) where
  -- What the store has for a request.
  abbrev pub stored : SignArguments → IdempotencyStore → Option Row
  stored args store = get store (build_hash (hash_payload args))

  -- Every row of the first store stands in the second, unchanged.
  abbrev pub Keeps : IdempotencyStore → IdempotencyStore → Type 0
  Keeps before after = (k : Text) (row : Row) → get before k ≡ some row → get after k ≡ some row

  pub sign_certificate_reused :
      (world : World) (settings : Settings) (args : SignArguments) (store : IdempotencyStore)
      (row : Row)
      → stored args store ≡ some row
      → sign_certificate build_hash world settings args store ≡ (ok (row.certificate, true), store)
  unfolding sign_certificate
  sign_certificate_reused world settings args store row h = rw (h, sign_certificate) refl

  pub sign_certificate_new :
      (world : World) (settings : Settings) (args : SignArguments) (store : IdempotencyStore)
      → stored args store ≡ none
      → sign_certificate build_hash world settings args store
        ≡ store_certificate build_hash world args store (run_ssh_keygen world settings args)
  unfolding sign_certificate
  sign_certificate_new world settings args store h = rw (h, sign_certificate) refl

  store_certificate-Keeps :
      (world : World) (args : SignArguments) (store : IdempotencyStore) (run : Result Text)
      → stored args store ≡ none
      → Keeps store (store_certificate build_hash world args store run).1
  unfolding store_certificate
  store_certificate-Keeps world args store (raised e) h k row g = g
  store_certificate-Keeps world args store (ok c) h k row g =
      elim (Bool-cases (text_eq (build_hash (hash_payload args)) k)) [
        | inl same ↦ cc (ap (get store) ((text_eq_iff _ k).0 same))
        | inr other ↦ rw (get-put, other) g
      ]

  store_certificate-stored :
      (world : World) (args : SignArguments) (store store' : IdempotencyStore) (run : Result Text)
      (c : Text) (reused : Bool)
      → store_certificate build_hash world args store run ≡ (ok (c, reused), store')
      → stored args store' ≡ some (row_of world args c)
  unfolding store_certificate
  store_certificate-stored world args store store' (raised e) c reused h = cc
  store_certificate-stored world args store store' (ok c') c reused h =
      let same : c' ≡ c = cc (ap fst_of h) in
      rw (← ap snd_of h, get-put, text_eq_refl) (ap (λ x. some (row_of world args x)) same)

  sign_certificate_kept :
      (world : World) (settings : Settings) (args : SignArguments) (store : IdempotencyStore)
      → Keeps store (sign_certificate build_hash world settings args store).1
  sign_certificate_kept world settings args store = elim (Option-cases (stored args store)) [
    | inl h ↦
        rw (sign_certificate_new world settings args store h)
          (store_certificate-Keeps world args store (run_ssh_keygen world settings args) h)
    | inr (row, h) ↦ rw (sign_certificate_reused world settings args store row h) (λ k r g. g)
  ]

  -- No call of `sign_certificate` changes or drops a row of the store, whether it succeeds or raises.
  pub sign_certificate-Keeps :
      (world : World) (settings : Settings) (args : SignArguments) (store : IdempotencyStore)
      (k : Text) (row : Row)
      → get store k ≡ some row
      → get (sign_certificate build_hash world settings args store).1 k ≡ some row
  sign_certificate-Keeps world settings args store k row h =
      sign_certificate_kept world settings args store k row h

  -- A successful call leaves its certificate in the store.
  sign_certificate-stored :
      (world : World) (settings : Settings) (args : SignArguments) (store store' : IdempotencyStore)
      (c : Text) (reused : Bool)
      → sign_certificate build_hash world settings args store ≡ (ok (c, reused), store')
      → (row : Row) × (stored args store' ≡ some row) × (row.certificate ≡ c)
  sign_certificate-stored world settings args store store' c reused e =
      elim (Option-cases (stored args store)) [
        | inl h ↦ (
          row_of world args c,
          store_certificate-stored world args store store' (run_ssh_keygen world settings args) c
              reused (sym (sign_certificate_new world settings args store h) ∙ e),
          refl,
        )
        | inr (row, h) ↦
            let e' = sym (sign_certificate_reused world settings args store row h) ∙ e in
            (row, rw (← ap snd_of e') h, cc (ap fst_of e'))
      ]

  store_certificate-raised :
      (world : World) (args : SignArguments) (store : IdempotencyStore) (run : Result Text)
      (e : Exception)
      → (store_certificate build_hash world args store run).0 ≡ raised e
      → (store_certificate build_hash world args store run).1 ≡ store
  unfolding store_certificate
  store_certificate-raised world args store (raised e') e h = refl
  store_certificate-raised world args store (ok c) e h = cc

  -- A call of `sign_certificate` that raises leaves the store as it was.
  sign_certificate-raised :
      (world : World) (settings : Settings) (args : SignArguments) (store : IdempotencyStore)
      (e : Exception)
      → (sign_certificate build_hash world settings args store).0 ≡ raised e
      → (sign_certificate build_hash world settings args store).1 ≡ store
  sign_certificate-raised world settings args store e h = elim (Option-cases (stored args store)) [
    | inl n ↦
        let new = sign_certificate_new world settings args store n in
        rw new (
          store_certificate-raised world args store (run_ssh_keygen world settings args) e
            (rw new at h))
    | inr (row, s) ↦ rw (sign_certificate_reused world settings args store row s) refl
  ]

-- One call, with the world and the settings that it meets.
pub record Call : Type 0 where
  pub world : World
  pub settings : Settings
  pub args : SignArguments

module _ (build_hash : HashPayload → Text) where
  -- The store after a sequence of calls, whatever each of them returns.
  pub serve : List Call → IdempotencyStore → IdempotencyStore
  serve [] store = store
  serve (c ∷ cs) store = serve cs (sign_certificate build_hash c.world c.settings c.args store).1

  serve-Keeps :
      (calls : List Call) (store : IdempotencyStore) → Keeps build_hash store (serve calls store)
  unfolding serve
  serve-Keeps [] store k row h = h
  serve-Keeps (c ∷ cs) store k row h =
      serve-Keeps cs _ k row
        (sign_certificate-Keeps build_hash c.world c.settings c.args store k row h)

  -- Once a request has been signed, the same request gets the same certificate, marked as reused, after
  -- any further calls, under any later clock, settings and behaviour of ssh-keygen. (So a certificate
  -- that has expired in the meantime is handed out again.)
  pub sign_certificate_forever :
      (first : Call) (calls : List Call) (world : World) (settings : Settings)
      (store store' : IdempotencyStore) (c : Text) (reused : Bool)
      → sign_certificate build_hash first.world first.settings first.args store
        ≡ (ok (c, reused), store')
      → sign_certificate build_hash world settings first.args (serve calls store')
        ≡ (ok (c, true), serve calls store')
  sign_certificate_forever first calls world settings store store' c reused e =
      let (row, found, same) =
        sign_certificate-stored build_hash first.world first.settings first.args store store' c
          reused e in
      sign_certificate_reused build_hash world settings first.args (serve calls store') row
        (serve-Keeps calls store' _ row found)
      ∙ ap (λ x. (ok (x, true), serve calls store')) same
