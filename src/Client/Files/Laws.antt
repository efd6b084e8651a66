-- ===== src/Client/Files/Laws.antt =====
-- What reading finds after writing, changing a mode and removing.
use secure_sshlinux_client.Base.{
  ℕ, ◌≡◌, refl, ◌∙◌, true, false, Option, none, some, [], ◌∷◌, ◌++◌, ◌⊎◌, inl, inr, arith,
  if◌then◌else◌, Text, text_eq, text_eq_iff, text_eq_refl, dict_get, dict_get-dict_set,
}
use secure_sshlinux_client.Client.Errors.{ClientError, Answer, failed, returned}
use secure_sshlinux_client.Client.Files.{
  File, Files, WriteEnd, written, broken, end_write, write_text, next_step, set_mode, chmod, unlink,
  write_with_mode,
}

pub dict_get-set_mode :
    (path : Text) (mode : ℕ) (old : Option File) (files : Files) (k : Text)
    → text_eq path k ≡ false
    → dict_get (set_mode path mode old files) k ≡ dict_get files k
unfolding set_mode
dict_get-set_mode path mode none files k h = refl
dict_get-set_mode path mode (some f) files k h = rw (dict_get-dict_set, h) refl

pub dict_get-chmod :
    (path : Text) (mode : ℕ) (files : Files) (k : Text)
    → text_eq path k ≡ false
    → dict_get (chmod path mode files) k ≡ dict_get files k
unfolding chmod
dict_get-chmod path mode files k h = dict_get-set_mode path mode (dict_get files path) files k h

-- A step does not touch the file at this path.
abbrev pub Spares : Text → (Files → Answer (Unit {0}) × Files) → Type 0
Spares k step = (files : Files) → dict_get (step files).1 k ≡ dict_get files k

pub next_step-dict_get :
    (k : Text) (step : Files → Answer (Unit {0}) × Files) (r : Answer (Unit {0}) × Files)
    → Spares k step
    → dict_get (next_step step r).1 k ≡ dict_get r.1 k
unfolding next_step
next_step-dict_get k step (failed e, files) h = refl
next_step-dict_get k step (returned u, files) h = h files

end_write-dict_get :
    (path content k : Text) (files : Files) (end : WriteEnd)
    → text_eq path k ≡ false
    → dict_get (end_write path content files end).1 k ≡ dict_get files k
unfolding end_write
end_write-dict_get path content k files written h = rw (dict_get-dict_set, h) refl
end_write-dict_get path content k files (broken e none) h = refl
end_write-dict_get path content k files (broken e (some left)) h = rw (dict_get-dict_set, h) refl

module _ (write : Text → Text → WriteEnd) where
  pub write_text-Spares :
      (path content k : Text) → text_eq path k ≡ false → Spares k (write_text write path content)
  unfolding write_text
  write_text-Spares path content k h files =
      end_write-dict_get path content k files (write path content) h

  pub write_with_mode-Spares :
      (path content : Text) (mode : ℕ) (k : Text)
      → text_eq path k ≡ false
      → Spares k (write_with_mode write path content mode)
  unfolding write_with_mode
  write_with_mode-Spares path content mode k h files =
      next_step-dict_get k _ _ (λ now. dict_get-chmod path mode now k h)
      ∙ write_text-Spares path content k h files

  chmod_written :
      (path content : Text) (mode : ℕ) (files : Files) (end : WriteEnd) {u : Unit {0}}
      → (next_step (λ now. (returned tt, chmod path mode now)) (end_write path content files end)).0
        ≡ returned u
      → dict_get
          (next_step
            (λ now. (returned tt, chmod path mode now))
            (end_write path content files end)).1
          path
        ≡ some (record { content = content; mode = some mode; is_utf8 = true })
  unfolding next_step end_write chmod set_mode
  chmod_written path content mode files written h =
      rw (dict_get-dict_set, text_eq_refl, dict_get-dict_set, text_eq_refl) refl
  chmod_written path content mode files (broken e none) h = cc
  chmod_written path content mode files (broken e (some left)) h = cc

  -- A write that returns leaves this text, with this mode.
  pub write_with_mode-returned :
      (path content : Text) (mode : ℕ) (files : Files) {u : Unit {0}}
      → (write_with_mode write path content mode files).0 ≡ returned u
      → dict_get (write_with_mode write path content mode files).1 path
        ≡ some (record { content = content; mode = some mode; is_utf8 = true })
  unfolding write_with_mode write_text
  write_with_mode-returned path content mode files h =
      chmod_written path content mode files (write path content) h

  -- A write that fails leaves the file alone, or is one that the system breaks.
  abbrev pub KeptOrBroken : Text → Text → Files → ClientError → Files → Type 0
  KeptOrBroken path content before e after =
      (dict_get after path ≡ dict_get before path)
      ⊎ ((left : File) × (write path content ≡ broken e (some left)))

  chmod_broken :
      (path content : Text) (mode : ℕ) (files : Files) (e : ClientError) (end : WriteEnd)
      → write path content ≡ end
      → (next_step (λ now. (returned tt, chmod path mode now)) (end_write path content files end)).0
        ≡ failed e
      → KeptOrBroken path content files e
          (next_step
            (λ now. (returned tt, chmod path mode now))
            (end_write path content files end)).1
  unfolding next_step end_write
  chmod_broken path content mode files e written w h = cc
  chmod_broken path content mode files e (broken e2 none) w h = inl refl
  chmod_broken path content mode files e (broken e2 (some left)) w h =
      let same : e2 ≡ e = cc in inr (left, rw (← same) w)

  pub write_with_mode-failed :
      (path content : Text) (mode : ℕ) (files : Files) (e : ClientError)
      → (write_with_mode write path content mode files).0 ≡ failed e
      → KeptOrBroken path content files e (write_with_mode write path content mode files).1
  unfolding write_with_mode write_text
  write_with_mode-failed path content mode files e h =
      chmod_broken path content mode files e (write path content) refl h

  -- Where the system carries out the write, it returns.
  pub write_with_mode-written :
      (path content : Text) (mode : ℕ) (files : Files)
      → write path content ≡ written
      → (write_with_mode write path content mode files).0 ≡ returned tt
  unfolding write_with_mode write_text next_step end_write
  write_with_mode-written path content mode files h = rw h refl

pub dict_get-unlink :
    (path : Text) (files : Files) (k : Text)
    → dict_get (unlink path files) k ≡ (if text_eq path k then none else dict_get files k)
unfolding dict_get unlink
dict_get-unlink path [] k = ground arith
dict_get-unlink path ((p, f) ∷ files) k =
    ground
      (arith, text_eq_iff p path, text_eq_iff path k, text_eq_iff p k, dict_get-unlink path files k)

pub text_eq-append : (home s t : Text) → text_eq (home ++ s) (home ++ t) ≡ text_eq s t
unfolding text_eq
text_eq-append [] s t = refl
text_eq-append (c ∷ home) s t = ground (arith, text_eq-append home s t)
