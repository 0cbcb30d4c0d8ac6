-- ===== src/Resp/Marker.antt =====
-- The cases of the marker byte in `parse_with`, for a property that all five branches have.
use kagni.Prelude.{ℕ, nat_eq, ◌==◌, ◌||◌, if◌then◌else◌, if-elim, if-elim_both}

-- The choice that `parse_with` makes.
abbrev pub by_marker {ℓ} : {A : Type ℓ} → ℕ → A → A → A → A → A → A
by_marker marker array bulk integer line inline =
    if marker == b'*'
    then array
    else if marker == b'$'
    then bulk
    else if marker == b':'
    then integer
    else if marker == b'+' || marker == b'-'
    then line
    else inline

pub marker_cases {ℓ κ} :
    {A : Type ℓ} (P : A → Type κ) (m : ℕ) (a b i l w : A)
    → P a
    → P b
    → P i
    → P l
    → P w
    → P (by_marker m a b i l w)
marker_cases P m a b i l w pa pb pi pl pw =
    if-elim P (m == b'*') pa (
      if-elim P (m == b'$') pb
        (if-elim P (m == b':') pi (if-elim P (m == b'+' || m == b'-') pl pw)))

pub marker_cases_both {ℓ κ ι} :
    {A : Type ℓ} {B : Type κ} (R : A → B → Type ι) (m : ℕ) (a b i l w : A) (a' b' i' l' w' : B)
    → R a a'
    → R b b'
    → R i i'
    → R l l'
    → R w w'
    → R (by_marker m a b i l w) (by_marker m a' b' i' l' w')
marker_cases_both R m a b i l w a' b' i' l' w' ra rb ri rl rw' = if-elim_both R (m == b'*') ra (
    if-elim_both R (m == b'$') rb
      (if-elim_both R (m == b':') ri (if-elim_both R (m == b'+' || m == b'-') rl rw')))
