-- ===== src/Client/Machine/Frame.antt =====
-- Calls that leave a file alone: always, or where they raise.
use secure_sshlinux_client.Base.{◌≡◌, refl, sym, ap, ◌∙◌, ◌⊎◌, inl, inr, Text, dict_get}
use secure_sshlinux_client.Client.Errors.{ClientError, Answer, failed, returned}
use secure_sshlinux_client.Client.Files.{Files}
use secure_sshlinux_client.Client.Machine.{Machine, Action, continue, ◌>>=◌, keep_files, on_files}

module _ {ℓ} {S : Type 0} {X : Type ℓ} where
  abbrev pub Keeps : Text → Action S X → Type 0
  Keeps k action = (m : Machine S) → dict_get (action m).1.files k ≡ dict_get m.files k

  -- A call that raises leaves the file alone, or the error is one of those excepted.
  abbrev pub KeepsOnFailure : Text → (ClientError → Type 0) → Action S X → Type ℓ
  KeepsOnFailure k excepted action =
      (m : Machine S) (e : ClientError)
      → (action m).0 ≡ failed e
      → (dict_get (action m).1.files k ≡ dict_get m.files k) ⊎ excepted e

module _ {ℓ κ} {S : Type 0} {X : Type ℓ} {Y : Type κ} where
  continue-Keeps :
      (k : Text) (next : X → Action S Y) (r : Answer X × Machine S)
      → ((x : X) → Keeps k (next x))
      → dict_get (continue next r).1.files k ≡ dict_get r.1.files k
  continue-Keeps k next (failed e, m) h = refl
  continue-Keeps k next (returned x, m) h = h x m

  continue-KeepsOnFailure :
      (k : Text) (excepted : ClientError → Type 0) (next : X → Action S Y)
      (r : Answer X × Machine S) (e : ClientError)
      → ((x : X) → KeepsOnFailure k excepted (next x))
      → (continue next r).0 ≡ failed e
      → (dict_get (continue next r).1.files k ≡ dict_get r.1.files k) ⊎ excepted e
  continue-KeepsOnFailure k excepted next (failed e2, m) e h raised = inl refl
  continue-KeepsOnFailure k excepted next (returned x, m) e h raised = h x m e raised

  pub >>=-Keeps :
      (k : Text) (first : Action S X) (next : X → Action S Y)
      → Keeps k first
      → ((x : X) → Keeps k (next x))
      → Keeps k (first >>= next)
  unfolding ◌>>=◌
  >>=-Keeps k first next f h m = continue-Keeps k next (first m) h ∙ f m

  pub >>=-KeepsOnFailure :
      (k : Text) {excepted : ClientError → Type 0} (first : Action S X) (next : X → Action S Y)
      → Keeps k first
      → ((x : X) → KeepsOnFailure k excepted (next x))
      → KeepsOnFailure k excepted (first >>= next)
  unfolding ◌>>=◌
  >>=-KeepsOnFailure k {excepted} first next f h m e raised =
      elim (continue-KeepsOnFailure k excepted next (first m) e h raised) [
        | inl kept ↦ inl (kept ∙ f m)
        | inr x ↦ inr x
      ]

  continue-reaches :
      (P : Machine S → Type 0) (next : X → Action S Y) (r : Answer X × Machine S) (y : Y)
      → ((x : X) (m : Machine S) → r ≡ (returned x, m) → (next x m).0 ≡ returned y → P (next x m).1)
      → (continue next r).0 ≡ returned y
      → P (continue next r).1
  continue-reaches P next (failed e, m) y h back = cc back
  continue-reaches P next (returned x, m) y h back = h x m refl back

  -- Where a chain returns, its first call has returned, and the rest ran from there.
  pub >>=-reaches :
      (P : Machine S → Type 0) (first : Action S X) (next : X → Action S Y) (m : Machine S) (y : Y)
      → ((x : X) (between : Machine S)
          → first m ≡ (returned x, between)
          → (next x between).0 ≡ returned y
          → P (next x between).1)
      → ((first >>= next) m).0 ≡ returned y
      → P ((first >>= next) m).1
  unfolding ◌>>=◌
  >>=-reaches P first next m y h back = continue-reaches P next (first m) y h back

module _ {S : Type 0} where
  keep_files-dict_get {ℓ} :
      {A : Type ℓ} (k : Text) (m : Machine S) (r : Answer A × Files)
      → dict_get (keep_files m r).1.files k ≡ dict_get r.1 k
  keep_files-dict_get k m (answer, files) = refl

  pub on_files-Keeps {ℓ} :
      {A : Type ℓ} (k : Text) (change : Files → Answer A × Files)
      → ((files : Files) → dict_get (change files).1 k ≡ dict_get files k)
      → Keeps {S = S} k (on_files change)
  on_files-Keeps k change h m = keep_files-dict_get k m (change m.files) ∙ h m.files

-- Calls that leave the server alone, and such that raise besides.
module _ {ℓ} {S : Type 0} {X : Type ℓ} where
  abbrev pub KeepsServer : Action S X → Type 0
  KeepsServer action = (m : Machine S) → (action m).1.server ≡ m.server

  abbrev pub Fails : Action S X → Type ℓ
  Fails action =
      (m : Machine S)
      → ((e : ClientError) × ((action m).0 ≡ failed e)) × ((action m).1.server ≡ m.server)

module _ {ℓ κ} {S : Type 0} {X : Type ℓ} {Y : Type κ} where
  continue-failed :
      (next : X → Action S Y) (r : Answer X × Machine S) (e : ClientError)
      → r.0 ≡ failed e
      → continue next r ≡ (failed e, r.1)
  continue-failed next (failed e2, m) e h = cc
  continue-failed next (returned x, m) e h = cc

  continue-Fails :
      (next : X → Action S Y) (r : Answer X × Machine S)
      → ((x : X) → Fails (next x))
      → ((e : ClientError) × ((continue next r).0 ≡ failed e))
        × ((continue next r).1.server ≡ r.1.server)
  continue-Fails next (failed e, m) h = ((e, refl), refl)
  continue-Fails next (returned x, m) h = h x m

  continue-KeepsServer :
      (next : X → Action S Y) (r : Answer X × Machine S)
      → ((x : X) → KeepsServer (next x))
      → (continue next r).1.server ≡ r.1.server
  continue-KeepsServer next (failed e, m) h = refl
  continue-KeepsServer next (returned x, m) h = h x m

  pub >>=-KeepsServer :
      (first : Action S X) (next : X → Action S Y)
      → KeepsServer first
      → ((x : X) → KeepsServer (next x))
      → KeepsServer (first >>= next)
  unfolding ◌>>=◌
  >>=-KeepsServer first next f h m = continue-KeepsServer next (first m) h ∙ f m

  -- A chain fails where its first call does, or where all that follows does.
  pub >>=-Fails-first :
      (first : Action S X) (next : X → Action S Y) → Fails first → Fails (first >>= next)
  unfolding ◌>>=◌
  >>=-Fails-first first next f m =
      let ((e, raised), same) = f m in
      let stopped = continue-failed next (first m) e raised in
      ((e, ap (λ r. r.0) stopped), ap (λ r. r.1.server) stopped ∙ same)

  pub >>=-Fails-next :
      (first : Action S X) (next : X → Action S Y)
      → KeepsServer first
      → ((x : X) → Fails (next x))
      → Fails (first >>= next)
  unfolding ◌>>=◌
  >>=-Fails-next first next f h m =
      let (raised, same) = continue-Fails next (first m) h in (raised, same ∙ f m)

module _ {ℓ} {S : Type 0} {A : Type ℓ} where
  keep_files-server : (m : Machine S) (r : Answer A × Files) → (keep_files m r).1.server ≡ m.server
  keep_files-server m (answer, files) = refl

  pub on_files-KeepsServer :
      (change : Files → Answer A × Files) → KeepsServer {S = S} (on_files change)
  on_files-KeepsServer change m = keep_files-server m (change m.files)

  pub keep_files-returned :
      (m : Machine S) (r : Answer A × Files) (a : A) (after : Machine S)
      → keep_files m r ≡ (returned a, after)
      → (r.0 ≡ returned a) × (after.files ≡ r.1)
  keep_files-returned m (answer, files) a after h = (ap (λ x. x.0) h, sym (ap (λ x. x.1.files) h))
