-- ===== src/Client/Lifetimes/Accepted.antt =====
-- The broker accepts the lifetimes that the client asks for.
use secure_sshlinux_client.Base.{
  ◌≡◌, refl, ◌≤◌, ◌<◌, true, some, List, [], ◌∷◌, arith, Text, text_eq, contains, All-contains,
  keys, ℤ, pos, dict_get, ℕ, ltb-eq-false, number_from, length,
}
use secure_sshlinux_client.Errors.{user, ok}
use secure_sshlinux_client.Profiles.{builtin_profiles}
use secure_sshlinux_client.Validators.Ttl.{
  normalize_ttl, ttl_or_default, match_ttl, hours, ttl_minutes, exceeds, divides_to_float,
}
use secure_sshlinux_client.Validators.Ttl.Spelled.{IsLifetime, IsRead-IsLifetime}
use secure_sshlinux_client.Validators.Ttl.Bounds.{normalize_ttl_iff}
use secure_sshlinux_client.Client.Lifetimes.{default_ttl_for_profile}

-- The client has a lifetime for the profile, and the broker accepts it.
abbrev pub IsServed : ℤ → ℕ → Text → Type 0
IsServed default_hours limit profile =
    (ttl : Text) × (default_ttl_for_profile profile ≡ some ttl)
    × (normalize_ttl (some ttl) default_hours (pos limit) user ≡ ok ttl)

-- A digit and `h`.
digit_hours-IsLifetime :
    (ds : List ℕ) (limit : ℕ) (ttl : Text)
    → match_ttl ttl ≡ some (ds, hours)
    → length ds ≤ 2
    → 0 < number_from 0 ds
    → number_from 0 ds ≤ limit
    → IsLifetime (pos limit) ttl
unfolding ttl_minutes exceeds divides_to_float
digit_hours-IsLifetime ds limit ttl e short p h =
    IsRead-IsLifetime (pos limit) ttl
      ((ds, hours), e, (omega arith, refl, omega arith, ltb-eq-false _ _ (omega arith)))

accepted :
    (default_hours : ℤ) (limit : ℕ) (ds : List ℕ) (c : ℕ) (s : Text)
    → match_ttl (c ∷ s) ≡ some (ds, hours)
    → length ds ≤ 2
    → 0 < number_from 0 ds
    → number_from 0 ds ≤ limit
    → normalize_ttl (some (c ∷ s)) default_hours (pos limit) user ≡ ok (c ∷ s)
unfolding ttl_or_default
accepted default_hours limit ds c s e short p h =
    (normalize_ttl_iff (some (c ∷ s)) default_hours (pos limit) user (c ∷ s)).1
      (refl, digit_hours-IsLifetime ds limit (c ∷ s) e short p h)

-- For every built-in profile the client has a default lifetime, and a broker whose limit for users is
-- at least 12 hours accepts it, whatever its own default is.
pub default_ttl_for_profile-accepted :
    (default_hours : ℤ) (limit : ℕ) (profile : Text)
    → 12 ≤ limit
    → contains (keys builtin_profiles) profile ≡ true
    → IsServed default_hours limit profile
unfolding default_ttl_for_profile dict_get text_eq match_ttl number_from
default_ttl_for_profile-accepted default_hours limit profile h =
    All-contains (IsServed default_hours limit) (keys builtin_profiles) profile (
      (
        _,
        refl,
        accepted default_hours limit (4 ∷ []) _ _ refl (omega arith) (omega arith) (omega arith),
      ),
      (
        (
          _,
          refl,
          accepted default_hours limit (1 ∷ 2 ∷ []) _ _ refl (omega arith) (omega arith)
              (omega arith),
        ),
        (
          (
            _,
            refl,
            accepted default_hours limit (4 ∷ []) _ _ refl (omega arith) (omega arith)
                (omega arith),
          ),
          (
            (
              _,
              refl,
              accepted default_hours limit (8 ∷ []) _ _ refl (omega arith) (omega arith)
                  (omega arith),
            ),
            (
              (
                _,
                refl,
                accepted default_hours limit (2 ∷ []) _ _ refl (omega arith) (omega arith)
                    (omega arith),
              ),
              (
                (
                  _,
                  refl,
                  accepted default_hours limit (1 ∷ []) _ _ refl (omega arith) (omega arith)
                      (omega arith),
                ),
                tt,
              ),
            ),
          ),
        ),
      ),
    )
