-- ===== src/Client/KnownHosts/Layout.antt =====
-- How the lines of known_hosts are laid out, and what the loop over them keeps.
use secure_sshlinux_client.Base.{
  ◌≡◌, refl, ap, ◌∙◌, inl, inr, ◌⊎◌, true, false, List, [], ◌∷◌, ◌++◌, append_assoc, Bool-cases,
  All, Text, text_eq,
}
use secure_sshlinux_client.Client.KnownHosts.{
  managed_known_hosts_begin, managed_known_hosts_end, unmanaged, ends_nonblank, with_blank,
}
use secure_sshlinux_client.Client.KnownHosts.Laws.{IsUnmanaged, unmanaged-append}

-- What installations leave in a file: blocks of a user's own lines followed by a managed part, given by
-- the lines between its markers, and the user's lines at the end.
abbrev pub IsBlock : List Text × List Text → Type 0
IsBlock (free, old) = All IsUnmanaged free × All IsUnmanaged old

unfoldable pub file_lines : List (List Text × List Text) → List Text → List Text
file_lines [] end = end
file_lines ((free, old) ∷ blocks) end =
    free ++ (managed_known_hosts_begin ∷ (old ++ managed_known_hosts_end ∷ file_lines blocks end))

-- The user's own lines, in their order.
unfoldable pub free_lines : List (List Text × List Text) → List Text → List Text
free_lines [] end = end
free_lines ((free, old) ∷ blocks) end = free ++ free_lines blocks end

unmanaged-managed :
    (old rest : List Text)
    → All IsUnmanaged old
    → unmanaged true (old ++ managed_known_hosts_end ∷ rest) ≡ unmanaged false rest
unfolding unmanaged text_eq
unmanaged-managed [] rest h = refl
unmanaged-managed (line ∷ old) rest ((b, e), h) = rw (b, e, unmanaged-managed old rest h)

unmanaged-begin :
    (rest : List Text) → unmanaged false (managed_known_hosts_begin ∷ rest) ≡ unmanaged true rest
unfolding unmanaged text_eq
unmanaged-begin rest = refl

unmanaged-nil : (lines : List Text) → All IsUnmanaged lines → unmanaged false lines ≡ lines
unfolding unmanaged
unmanaged-nil [] h = refl
unmanaged-nil (line ∷ lines) ((b, e), h) = rw (b, e, unmanaged-nil lines h) refl

pub unmanaged-file_lines :
    (blocks : List (List Text × List Text)) (end : List Text)
    → All IsBlock blocks
    → All IsUnmanaged end
    → unmanaged false (file_lines blocks end) ≡ free_lines blocks end
unfolding file_lines free_lines
unmanaged-file_lines [] end h last = unmanaged-nil end last
unmanaged-file_lines ((free, old) ∷ blocks) end ((f, o), h) last =
    unmanaged-append free _ f
    ∙ ap (λ ls. free ++ ls)
        (unmanaged-begin _ ∙ unmanaged-managed old _ o ∙ unmanaged-file_lines blocks end h last)

pub with_blank-append :
    (lines rest : List Text)
    → (blank : List Text) × ((blank ≡ []) ⊎ (blank ≡ [] ∷ []))
      × (with_blank lines ++ rest ≡ lines ++ (blank ++ rest))
unfolding with_blank
with_blank-append lines rest = elim (Bool-cases (ends_nonblank lines)) [
  | inl e ↦ ([] ∷ [], inr refl, rw e (append_assoc lines ([] ∷ []) rest))
  | inr e ↦ ([], inl refl, rw e refl)
]
