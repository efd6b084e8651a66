-- ===== src/Client/KnownHosts/Install.antt =====
-- The file known_hosts after an installation, read back line by line.
use secure_sshlinux_client.Base.{
  ◌≡◌, refl, sym, ap, ap₂, ◌∙◌, inl, inr, ◌⊎◌, Bool, true, false, Option, none, some, List, [], ◌∷◌,
  ◌++◌, map, append_assoc, Bool-cases, All, All-append, Text, codes, text_eq, strip, rstrip, join,
  splitlines, is_space, is_line_break, IsLine, unlines, splitlines-unlines, unlines-join,
  splitlines-All, IsRightTrimmed-join, IsRightTrimmed,
}
use secure_sshlinux_client.Client.KnownHosts.{
  managed_known_hosts_begin, managed_known_hosts_end, authority_line, managed_lines, lines_of,
  unmanaged, with_blank, output_lines, install_host_ca,
}
use secure_sshlinux_client.Client.KnownHosts.Laws.{
  IsUnmanaged, with_blank-All, with_blank-with_blank, unmanaged-output_lines,
}
use secure_sshlinux_client.Client.KnownHosts.Layout.{
  IsBlock, file_lines, free_lines, unmanaged-file_lines, with_blank-append,
}

unmanaged-All_of {ℓ} :
    (P : Text → Type ℓ) (skip : Bool) (lines : List Text)
    → All P lines
    → All P (unmanaged skip lines)
unfolding unmanaged
unmanaged-All_of P skip [] h = tt
unmanaged-All_of P skip (line ∷ lines) (p, h) =
    elim (Bool-cases (text_eq line managed_known_hosts_begin)) [
      | inl b ↦ rw b (unmanaged-All_of P true lines h)
      | inr b ↦ elim (Bool-cases (text_eq line managed_known_hosts_end)) [
        | inl e ↦ rw (b, e) (unmanaged-All_of P false lines h)
        | inr e ↦ elim (Bool-cases skip) [
          | inl s ↦ rw (b, e, s) (unmanaged-All_of P true lines h)
          | inr s ↦ rw (b, e, s) (p, unmanaged-All_of P false lines h)
        ]
      ]
    ]

lines_of-All : (file : Option Text) → All IsLine (lines_of file)
unfolding lines_of
lines_of-All none = tt
lines_of-All (some text) = splitlines-All text

module _ (patterns : List Text) (public_key : Text) where
  end-IsRightTrimmed : IsRightTrimmed managed_known_hosts_end
  unfolding rstrip is_space
  end-IsRightTrimmed = (refl, λ h. cc)

  unlines-join_end :
      (ps : List Text) (t : Text)
      → join (10 ∷ []) (ps ++ t ∷ []) ++ (10 ∷ []) ≡ unlines (ps ++ t ∷ [])
  unlines-join_end [] t = unlines-join t []
  unlines-join_end (p ∷ ps) t = unlines-join p (ps ++ t ∷ [])

  front : List Text → List Text
  front existing =
      with_blank (unmanaged false existing)
      ++ (managed_known_hosts_begin ∷ map (authority_line public_key) patterns)

  output_lines-front :
      (existing : List Text)
      → output_lines patterns public_key existing ≡ front existing ++ managed_known_hosts_end ∷ []
  unfolding output_lines managed_lines front
  output_lines-front existing = sym (
      append_assoc (with_blank (unmanaged false existing))
        (managed_known_hosts_begin ∷ map (authority_line public_key) patterns)
        (managed_known_hosts_end ∷ []))

  known_hosts-unlines :
      (file : Option Text)
      → (install_host_ca patterns public_key file).1
        ≡ unlines (output_lines patterns public_key (lines_of file))
  unfolding install_host_ca
  known_hosts-unlines file =
      rw
        (
          output_lines-front,
          (IsRightTrimmed-join (10 ∷ []) (front (lines_of file)) managed_known_hosts_end
              end-IsRightTrimmed).0,
        )
        (unlines-join_end (front (lines_of file)) managed_known_hosts_end)

  authority_line-IsLine :
      (pattern : Text)
      → IsLine pattern
      → IsLine (strip public_key)
      → IsLine (authority_line public_key pattern)
  unfolding authority_line is_line_break
  authority_line-IsLine pattern p k =
      All-append _ (codes "@cert-authority ") _ (assumption refl)
        (All-append _ pattern _ p (All-append _ (codes " ") (strip public_key) (assumption refl) k))

  authority_lines-All :
      (ps : List Text)
      → All IsLine ps
      → IsLine (strip public_key)
      → All IsLine (map (authority_line public_key) ps)
  authority_lines-All [] h k = tt
  authority_lines-All (p ∷ ps) (h, hs) k =
      (authority_line-IsLine p h k, authority_lines-All ps hs k)

  managed_lines-All :
      All IsLine patterns
      → IsLine (strip public_key)
      → All IsLine (managed_lines patterns public_key)
  unfolding managed_lines is_line_break
  managed_lines-All h k = (
    assumption refl,
    All-append IsLine (map (authority_line public_key) patterns) (managed_known_hosts_end ∷ [])
        (authority_lines-All patterns h k) (assumption refl, tt),
  )

  output_lines-All :
      (file : Option Text)
      → All IsLine patterns
      → IsLine (strip public_key)
      → All IsLine (output_lines patterns public_key (lines_of file))
  unfolding output_lines
  output_lines-All file h k =
      All-append IsLine (with_blank (unmanaged false (lines_of file)))
        (managed_lines patterns public_key)
        (with_blank-All IsLine _ tt
          (unmanaged-All_of IsLine false (lines_of file) (lines_of-All file)))
        (managed_lines-All h k)

  lines-known_hosts :
      (file : Option Text)
      → All IsLine patterns
      → IsLine (strip public_key)
      → splitlines (install_host_ca patterns public_key file).1
        ≡ output_lines patterns public_key (lines_of file)
  lines-known_hosts file h k =
      ap splitlines (known_hosts-unlines file)
      ∙ splitlines-unlines (output_lines patterns public_key (lines_of file))
          (output_lines-All file h k)

  -- An installation into a file that holds the user's own lines, managed parts between their two markers,
  -- and again own lines: the new file has all own lines, in their order, then at most one empty line, and
  -- then one managed part with a line for each host pattern with the key. Patterns and key must hold no
  -- line break.
  pub install_host_ca_keeps :
      (file : Option Text) (blocks : List (List Text × List Text)) (end : List Text)
      → lines_of file ≡ file_lines blocks end
      → All IsBlock blocks
      → All IsUnmanaged end
      → All IsLine patterns
      → IsLine (strip public_key)
      → (blank : List Text) × ((blank ≡ []) ⊎ (blank ≡ [] ∷ []))
        × (splitlines (install_host_ca patterns public_key file).1
            ≡ free_lines blocks end
              ++ (blank
                  ++ (managed_known_hosts_begin
                      ∷ (map (authority_line public_key) patterns
                          ++ managed_known_hosts_end ∷ []))))
  unfolding managed_lines
  install_host_ca_keeps file blocks end laid h last p k =
      let kept : unmanaged false (lines_of file) ≡ free_lines blocks end =
        ap (unmanaged false) laid ∙ unmanaged-file_lines blocks end h last in
      let (blank, is_blank, e) =
        with_blank-append (free_lines blocks end) (managed_lines patterns public_key) in
      (
        blank,
        is_blank,
        lines-known_hosts file p k
            ∙ unfold output_lines in
              ap (λ ls. with_blank ls ++ managed_lines patterns public_key) kept ∙ e,
      )

  output_lines_again :
      (existing : List Text)
      → output_lines patterns public_key (output_lines patterns public_key existing)
        ≡ output_lines patterns public_key existing
  output_lines_again existing =
      unfold output_lines in
      ap (λ ls. with_blank ls ++ managed_lines patterns public_key)
        (unmanaged-output_lines patterns public_key existing)
      ∙ ap (λ ls. ls ++ managed_lines patterns public_key)
          (with_blank-with_blank (unmanaged false existing))

  install_host_ca-ca :
      (f g : Option Text)
      → (install_host_ca patterns public_key f).0 ≡ (install_host_ca patterns public_key g).0
  unfolding install_host_ca
  install_host_ca-ca f g = refl

  lines_again :
      (file : Option Text)
      → All IsLine patterns
      → IsLine (strip public_key)
      → lines_of (some (install_host_ca patterns public_key file).1)
        ≡ output_lines patterns public_key (lines_of file)
  unfolding lines_of
  lines_again file h k = lines-known_hosts file h k

  -- Installing the same key again changes nothing. Patterns and key must hold no line break.
  pub install_host_ca_twice :
      (file : Option Text)
      → All IsLine patterns
      → IsLine (strip public_key)
      → install_host_ca patterns public_key (some (install_host_ca patterns public_key file).1)
        ≡ install_host_ca patterns public_key file
  install_host_ca_twice file h k =
      ap₂ (λ ca hosts. (ca, hosts)) (install_host_ca-ca _ file)
        (known_hosts-unlines (some (install_host_ca patterns public_key file).1)
          ∙ ap unlines (
              ap (output_lines patterns public_key) (lines_again file h k)
              ∙ output_lines_again (lines_of file))
          ∙ sym (known_hosts-unlines file))
