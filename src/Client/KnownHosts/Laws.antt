-- ===== src/Client/KnownHosts/Laws.antt =====
-- What an installation keeps and writes, and installing twice.
use secure_sshlinux_client.Base.{
  ◌≡◌, refl, ◌∙◌, inl, inr, Bool, true, false, List, [], ◌∷◌, ◌++◌, map, append-nil, Bool-cases,
  All, All-append, Text, text_eq,
}
use secure_sshlinux_client.Client.KnownHosts.{
  managed_known_hosts_begin, managed_known_hosts_end, authority_line, managed_lines, unmanaged,
  ends_nonblank, with_blank, output_lines,
}

-- The line is not one of the two markers.
abbrev pub IsUnmanaged : Text → Type 0
IsUnmanaged line =
    (text_eq line managed_known_hosts_begin ≡ false)
    × (text_eq line managed_known_hosts_end ≡ false)

pub unmanaged-All : (skip : Bool) (lines : List Text) → All IsUnmanaged (unmanaged skip lines)
unfolding unmanaged
unmanaged-All skip [] = tt
unmanaged-All skip (line ∷ lines) = elim (Bool-cases (text_eq line managed_known_hosts_begin)) [
  | inl b ↦ rw b (unmanaged-All true lines)
  | inr b ↦ elim (Bool-cases (text_eq line managed_known_hosts_end)) [
    | inl e ↦ rw (b, e) (unmanaged-All false lines)
    | inr e ↦ elim (Bool-cases skip) [
      | inl s ↦ rw (b, e, s) (unmanaged-All true lines)
      | inr s ↦ rw (b, e, s) ((b, e), unmanaged-All false lines)
    ]
  ]
]

pub unmanaged-append :
    (lines rest : List Text)
    → All IsUnmanaged lines
    → unmanaged false (lines ++ rest) ≡ lines ++ unmanaged false rest
unfolding unmanaged
unmanaged-append [] rest h = refl
unmanaged-append (line ∷ lines) rest ((b, e), h) = rw (b, e, unmanaged-append lines rest h) refl

pub authority_line-IsUnmanaged :
    (public_key pattern : Text) → IsUnmanaged (authority_line public_key pattern)
unfolding authority_line text_eq
authority_line-IsUnmanaged public_key pattern = (refl, refl)

unmanaged-authority_lines :
    (public_key : Text) (patterns rest : List Text)
    → unmanaged true (map (authority_line public_key) patterns ++ rest) ≡ unmanaged true rest
unfolding unmanaged
unmanaged-authority_lines public_key [] rest = refl
unmanaged-authority_lines public_key (p ∷ ps) rest =
    let (b, e) = authority_line-IsUnmanaged public_key p in
    rw (b, e, unmanaged-authority_lines public_key ps rest)

unmanaged-managed_lines :
    (patterns : List Text) (public_key : Text)
    → unmanaged false (managed_lines patterns public_key) ≡ []
unfolding managed_lines unmanaged text_eq
unmanaged-managed_lines patterns public_key =
    unmanaged-authority_lines public_key patterns (managed_known_hosts_end ∷ [])

ends_nonblank-concat : (lines : List Text) → ends_nonblank (lines ++ [] ∷ []) ≡ false
unfolding ends_nonblank
ends_nonblank-concat [] = refl
ends_nonblank-concat (line ∷ []) = refl
ends_nonblank-concat (line ∷ next ∷ lines) = ends_nonblank-concat (next ∷ lines)

pub with_blank-with_blank : (lines : List Text) → with_blank (with_blank lines) ≡ with_blank lines
unfolding with_blank
with_blank-with_blank lines = elim (Bool-cases (ends_nonblank lines)) [
  | inl e ↦ rw (e, ends_nonblank-concat) refl
  | inr e ↦ rw (e, e) refl
]

pub with_blank-All {ℓ} :
    (P : Text → Type ℓ) (lines : List Text) → P [] → All P lines → All P (with_blank lines)
unfolding with_blank
with_blank-All P lines p h = elim (Bool-cases (ends_nonblank lines)) [
  | inl e ↦ rw e (All-append P lines ([] ∷ []) h (p, tt))
  | inr e ↦ rw e h
]

pub nil-IsUnmanaged : IsUnmanaged []
unfolding text_eq
nil-IsUnmanaged = (refl, refl)

pub unmanaged-output_lines :
    (patterns : List Text) (public_key : Text) (existing : List Text)
    → unmanaged false (output_lines patterns public_key existing)
      ≡ with_blank (unmanaged false existing)
unfolding output_lines
unmanaged-output_lines patterns public_key existing =
    unmanaged-append (with_blank (unmanaged false existing)) (managed_lines patterns public_key)
      (with_blank-All IsUnmanaged _ nil-IsUnmanaged (unmanaged-All false existing))
    ∙ rw (unmanaged-managed_lines, append-nil) refl
