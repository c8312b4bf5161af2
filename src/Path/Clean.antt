-- ===== src/Path/Clean.antt =====
-- A cleaned path names what the path named, and a joined one what lies below its directory.
use mathlib.Core.List.{reverse, reverse-append}
use supaback.Prelude.{
  Text, codes, is_empty, List, [], ◌∷◌, ◌++◌, Bool, true, false, ◌||◌, All, All-reverse, ◌≡◌, ◌≢◌,
  refl, sym, ap, ◌∙◌, ◌⊎◌, inl, inr, arith, text_eq, text_eq_iff, Bool-cases,
}
use supaback.Strconv.{split, join}
use supaback.Strconv.Split.{Lacks, split-join, split-append_sep, split-All}
use supaback.Path.{go_up, push, walk, is_rooted, elements, root_of, locate, render, clean}

pub walk-append :
    (r : Bool) (xs ys st : List Text) → walk r (xs ++ ys) st ≡ walk r ys (walk r xs st)
unfolding walk
walk-append r [] ys st = refl
walk-append r (x ∷ xs) ys st = walk-append r xs ys (push r x st)

-- A stack that no further cleaning changes.
abbrev AllUp : List Text → Type 0
AllUp = All λ x. x ≡ codes ".."

abbrev Normal : Bool → List Text → Type 0
Normal r [] = Unit
Normal r (x ∷ st) =
    Lacks b'/' x
    × (is_empty x ≡ false)
    × (x ≢ codes ".")
    × ((x ≢ codes "..") ⊎ ((r ≡ false) × AllUp st))
    × Normal r st

up_lacks : Lacks b'/' (codes "..")
up_lacks = (omega arith, (omega arith, tt))

ups :
    (r : Bool) (x : Text) (st : List Text)
    → Normal r (x ∷ st)
    → x ≡ codes ".."
    → (codes ".." ≢ codes "..") ⊎ ((r ≡ false) × AllUp (x ∷ st))
ups r x st n e = elim n.3 [ inl d ↦ absurd (d e) | inr (f, a) ↦ inr (f, (e, a)) ]

go_up-Normal : (r : Bool) (st : List Text) → Normal r st → Normal r (go_up r st)
unfolding go_up
go_up-Normal true [] n = tt
go_up-Normal false [] n = (up_lacks, refl, (λ e. cc), inr (refl, tt), tt)
go_up-Normal r (x ∷ st) n = elim (Bool-cases (text_eq x (codes ".."))) [
  | inl u ↦ rw u (up_lacks, refl, (λ e. cc), ups r x st n ((text_eq_iff x (codes "..")).0 u), n)
  | inr d ↦ rw d n.4
]

push-Normal :
    (r : Bool) (x : Text) (st : List Text) → Lacks b'/' x → Normal r st → Normal r (push r x st)
unfolding push
push-Normal r x st l n = elim (Bool-cases (is_empty x || text_eq x (codes "."))) [
  | inl e ↦ rw e n
  | inr e ↦ elim (Bool-cases (text_eq x (codes ".."))) [
    | inl u ↦ rw (e, u) (go_up-Normal r st n)
    | inr u ↦
        rw (e, u)
          (
            l,
            ground arith,
            (λ d. ground (arith, text_eq_iff x (codes "."))),
            inl (λ d. ground (arith, text_eq_iff x (codes ".."))),
            n,
          )
  ]
]

walk-Normal :
    (r : Bool) (xs st : List Text) → All (Lacks b'/') xs → Normal r st → Normal r (walk r xs st)
unfolding walk
walk-Normal r [] st l n = n
walk-Normal r (x ∷ xs) st l n = walk-Normal r xs (push r x st) l.1 (push-Normal r x st l.0 n)

not_dot : (x : Text) → x ≢ codes "." → text_eq x (codes ".") ≡ false
not_dot x d = ground (arith, text_eq_iff x (codes "."))

go_up-kept :
    (r : Bool) (x : Text) (st : List Text)
    → x ≡ codes ".."
    → (codes ".." ≢ codes "..") ⊎ ((r ≡ false) × AllUp st)
    → go_up r st ≡ x ∷ st
unfolding go_up
go_up-kept r x st e (inl d) = absurd (d refl)
go_up-kept r x [] e (inr (f, a)) = rw f (ap (λ t. t ∷ []) (sym e))
go_up-kept r x (y ∷ st) e (inr (f, a)) =
    rw ((text_eq_iff y (codes "..")).1 a.0) (ap (λ t. t ∷ y ∷ st) (sym e))

push-kept : (r : Bool) (x : Text) (st : List Text) → Normal r (x ∷ st) → push r x st ≡ x ∷ st
unfolding push
push-kept r x st n = elim (Bool-cases (text_eq x (codes ".."))) [
  | inl u ↦
      let up : x ≡ codes ".." = (text_eq_iff x (codes "..")).0 u in
      rw (n.1, not_dot x n.2, u)
        (go_up-kept r x st up (elim n.3 [ inl d ↦ absurd (d up) | inr fa ↦ inr fa ]))
  | inr d ↦ rw (n.1, not_dot x n.2, d) refl
]

walk-reverse : (r : Bool) (st : List Text) → Normal r st → walk r (reverse st) [] ≡ st
walk-reverse r [] n = unfold walk in refl
walk-reverse r (x ∷ st) n =
    ap (λ xs. walk r xs []) (reverse-append (x ∷ []) st)
    ∙ (walk-append r (reverse st) (x ∷ []) []
        ∙ (ap (λ t. walk r (x ∷ []) t) (walk-reverse r st n.4) ∙ unfold walk in push-kept r x st n))

elements-Normal : (p : Text) → Normal (is_rooted p) (elements p)
unfolding elements
elements-Normal p = walk-Normal (is_rooted p) (split b'/' p) [] (split-All b'/' p) tt

-- A part that stands between slashes.
abbrev pub Part : Text → Type 0
Part x = Lacks b'/' x × (is_empty x ≡ false)

Normal-Part : (r : Bool) (st : List Text) → Normal r st → All Part st
Normal-Part r [] n = tt
Normal-Part r (x ∷ st) n = ((n.0, n.1), Normal-Part r st n.4)

pub All-Lacks : (xs : List Text) → All Part xs → All (Lacks b'/') xs
All-Lacks [] p = tt
All-Lacks (x ∷ xs) p = (p.0.0, All-Lacks xs p.1)

pub unrooted : (x : Text) (xs : List Text) → Part x → is_rooted (join b'/' (x ∷ xs)) ≡ false
unfolding is_rooted join
unrooted [] xs p = cc
unrooted (c ∷ x) [] p = ground arith
unrooted (c ∷ x) (y ∷ ys) p = ground arith

-- The elements of a rendered path are those of its parts.
elements-render :
    (r : Bool) (xs : List Text)
    → All Part xs
    → (is_rooted (render r xs) ≡ r) × (elements (render r xs) ≡ walk r xs [])
unfolding elements is_rooted
elements-render true [] p = (refl, unfold split walk push text_eq join in refl)
elements-render true (x ∷ xs) p = (
  refl,
  rw (split-append_sep b'/' [] (join b'/' (x ∷ xs)), split-join b'/' x xs (All-Lacks (x ∷ xs) p))
      (unfold split walk push in refl),
)
elements-render false [] p = (refl, unfold split walk push text_eq join in refl)
elements-render false (x ∷ xs) p =
    (unrooted x xs p.0, rw (unrooted x xs p.0, split-join b'/' x xs (All-Lacks (x ∷ xs) p)) refl)

-- Cleaning a path does not change what it names.
pub locate-clean : (p : Text) → locate (clean p) ≡ locate p
unfolding locate clean
locate-clean p =
    let n = elements-Normal p in
    let (rooted, same) =
      elements-render (is_rooted p) (reverse (elements p))
        (All-reverse Part (elements p) (Normal-Part (is_rooted p) (elements p) n)) in
    rw (rooted, same)
      (ap (λ st. st ++ root_of (is_rooted p)) (walk-reverse (is_rooted p) (elements p) n))
