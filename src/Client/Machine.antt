-- ===== src/Client/Machine.antt =====
-- The computer that the client runs on and the broker's side of the network, and calls that change
-- them or raise.
pub mod Frame
use secure_sshlinux_client.Base.{ℕ, List, [], ◌∷◌, ◌++◌, Text}
use secure_sshlinux_client.Client.Errors.{ClientError, Answer, failed, returned}
use secure_sshlinux_client.Client.Files.{Files}

-- The state of the server is left open; what is printed on both outputs is kept, newest text last.
pub record Machine (S : Type 0) : Type 0 where
  pub files : Files
  pub server : S
  pub printed : List Text

abbrev pub Action {ℓ} : Type 0 → Type ℓ → Type ℓ
Action S A = Machine S → Answer A × Machine S

module _ {ℓ κ} {S : Type 0} {X : Type ℓ} {Y : Type κ} where
  abbrev pub continue : (X → Action S Y) → Answer X × Machine S → Answer Y × Machine S
  continue next (failed e, m) = (failed e, m)
  continue next (returned x, m) = next x m

  infixl 5 ◌>>=◌ ◌>>◌
  -- The statements after a call run unless it has raised.
  unfoldable pub ◌>>=◌ : Action S X → (X → Action S Y) → Action S Y
  (first >>= next) m = continue next (first m)

  abbrev pub ◌>>◌ : Action S X → Action S Y → Action S Y
  first >> second = first >>= λ _. second

module _ {S : Type 0} where
  -- A call that changes nothing.
  abbrev pub lift {ℓ} : {A : Type ℓ} → Answer A → Action S A
  lift answer m = (answer, m)

  -- A call that looks at the files.
  abbrev pub reading {ℓ} : {A : Type ℓ} → (Files → Answer A) → Action S A
  reading look m = (look m.files, m)

  abbrev pub keep_files {ℓ} : {A : Type ℓ} → Machine S → Answer A × Files → Answer A × Machine S
  keep_files m (answer, files) = (answer, record m { files = files })

  -- A call that changes the files.
  abbrev pub on_files {ℓ} : {A : Type ℓ} → (Files → Answer A × Files) → Action S A
  on_files change m = keep_files m (change m.files)

  abbrev pub writing : (Files → Files) → Action S (Unit {0})
  writing change m = (returned tt, record m { files = change m.files })

  abbrev pub print : Text → Action S (Unit {0})
  print line m = (returned tt, record m { printed = m.printed ++ line ∷ [] })
