-- ===== src/Path/Below.antt =====
-- What a joined path names lies below its directory, unless its key goes up.
use mathlib.Core.List.{append_assoc, reverse, reverse-append}
use supaback.Prelude.{
  Text, codes, is_empty, List, [], ◌∷◌, ◌++◌, Bool, true, false, ◌||◌, ◌==◌, All, All-reverse, ◌≡◌,
  ◌≢◌, refl, sym, ap, ◌∙◌, inl, inr, arith, text_eq, text_eq_iff, Bool-cases,
}
use supaback.Strconv.{split, join}
use supaback.Strconv.Split.{Lacks, split-append_sep, split-Lacks, split-join}
use supaback.Path.{
  is_name, lacks_slash, push, walk, is_rooted, elements, root_of, locate, join_path, render,
}
use supaback.Path.Clean.{walk-append, locate-clean, Part, unrooted, All-Lacks}

-- A joined path is walked on from its directory.
pub locate-join_path :
    (dir key : Text)
    → is_rooted key ≡ false
    → locate (join_path dir key)
      ≡ walk (is_rooted dir) (split b'/' key) (elements dir) ++ root_of (is_rooted dir)
unfolding join_path
locate-join_path [] [] h = unfold locate elements split walk push is_rooted in refl
locate-join_path [] (c ∷ key) h =
    locate-clean (c ∷ key)
    ∙ (unfold locate elements in rw h (unfold is_rooted split walk push in refl))
locate-join_path (c ∷ dir) key h =
    locate-clean ((c ∷ dir) ++ (b'/' ∷ key))
    ∙ (unfold locate elements is_rooted in
        ap (λ t. t ++ root_of (c == b'/'))
          (ap (λ xs. walk (c == b'/') xs []) (split-append_sep b'/' (c ∷ dir) key)
            ∙ walk-append (c == b'/') (split b'/' (c ∷ dir)) (split b'/' key) []))

pub lacks_slash-Lacks : (s : Text) → lacks_slash s ≡ true → Lacks b'/' s
unfolding lacks_slash
lacks_slash-Lacks [] h = tt
lacks_slash-Lacks (c ∷ s) h = ((λ e. ground arith), lacks_slash-Lacks s (ground arith))

push_name : (r : Bool) (x : Text) (st : List Text) → is_name x ≡ true → push r x st ≡ x ∷ st
unfolding push is_name
push_name r x st h = ground arith

name_unrooted : (x : Text) → is_name x ≡ true → is_rooted x ≡ false
unfolding is_name is_rooted
name_unrooted [] h = refl
name_unrooted (c ∷ x) h = ground arith

-- A name is one step below its directory.
pub locate_name :
    (dir key : Text) → is_name key ≡ true → locate (join_path dir key) ≡ key ∷ locate dir
locate_name dir key h =
    locate-join_path dir key (name_unrooted key h)
    ∙ rw (split-Lacks b'/' key (lacks_slash-Lacks key (unfold is_name in ground arith))) (
        unfold walk locate in
        ap (λ t. t ++ root_of (is_rooted dir)) (push_name (is_rooted dir) key (elements dir) h))

-- No element goes up.
abbrev pub NoUp : List Text → Type 0
NoUp = All λ x. x ≢ codes ".."

push_blank :
    (r : Bool) (x : Text) (st : List Text)
    → (is_empty x || text_eq x (codes ".")) ≡ true
    → push r x st ≡ st
unfolding push
push_blank r x st h = rw h

push_down :
    (r : Bool) (x : Text) (st : List Text)
    → (is_empty x || text_eq x (codes ".")) ≡ false
    → x ≢ codes ".."
    → push r x st ≡ x ∷ st
unfolding push
push_down r x st h d = ground (arith, text_eq_iff x (codes ".."))

walk_down : (r : Bool) (xs st : List Text) → NoUp xs → (ys : List Text) × (walk r xs st ≡ ys ++ st)
unfolding walk
walk_down r [] st n = ([], refl)
walk_down r (x ∷ xs) st n = elim (Bool-cases (is_empty x || text_eq x (codes "."))) [
  | inl e ↦ rw (push_blank r x st e) (walk_down r xs st n.1)
  | inr e ↦
      let (ys, q) = walk_down r xs (x ∷ st) n.1 in
      (ys ++ (x ∷ []), rw (push_down r x st e n.0) (q ∙ sym (append_assoc ys (x ∷ []) st)))
]

-- A key of which no element goes up names something below its directory.
pub locate_below :
    (dir key : Text)
    → is_rooted key ≡ false
    → NoUp (split b'/' key)
    → (ys : List Text) × (locate (join_path dir key) ≡ ys ++ locate dir)
locate_below dir key h n =
    let (ys, e) = walk_down (is_rooted dir) (split b'/' key) (elements dir) n in
    (
      ys,
      locate-join_path dir key h
          ∙ (ap (λ t. t ++ root_of (is_rooted dir)) e
              ∙ (append_assoc ys (elements dir) (root_of (is_rooted dir)) ∙ unfold locate in refl)),
    )

rooted_name : (name rest : Text) → is_name name ≡ true → is_rooted (name ++ (b'/' ∷ rest)) ≡ false
unfolding is_name is_rooted
rooted_name [] rest h = ground arith
rooted_name (c ∷ name) rest h = ground arith

-- A key under a name of which no further element goes up names something below that name.
pub locate_under :
    (dir name rest : Text)
    → is_name name ≡ true
    → NoUp (split b'/' rest)
    → (ys : List Text) × (locate (join_path dir (name ++ (b'/' ∷ rest)))
        ≡ ys ++ (name ∷ locate dir))
locate_under dir name rest h n =
    let r = is_rooted dir in
    let lacks = lacks_slash-Lacks name (unfold is_name in ground arith) in
    let parts : split b'/' (name ++ (b'/' ∷ rest)) ≡ name ∷ split b'/' rest =
      split-append_sep b'/' name rest
      ∙ ap (λ xs. xs ++ split b'/' rest) (split-Lacks b'/' name lacks) in
    let (ys, e) = walk_down r (split b'/' rest) (name ∷ elements dir) n in
    (
      ys,
      locate-join_path dir (name ++ (b'/' ∷ rest)) (rooted_name name rest h)
          ∙ (ap (λ xs. walk r xs (elements dir) ++ root_of r) parts
              ∙ (unfold walk in
                  ap (λ st. walk r (split b'/' rest) st ++ root_of r)
                    (push_name r name (elements dir) h)
                  ∙ (ap (λ st. st ++ root_of r) e
                      ∙ (append_assoc ys (name ∷ elements dir) (root_of r)
                          ∙ unfold locate in refl)))),
    )

pub name-Part : (x : Text) → is_name x ≡ true → Part x
name-Part x h =
    (lacks_slash-Lacks x (unfold is_name in ground arith), unfold is_name in ground arith)

abbrev pub Names : List Text → Type 0
Names = All λ x. is_name x ≡ true

Names-Part : (xs : List Text) → Names xs → All Part xs
Names-Part [] h = tt
Names-Part (x ∷ xs) h = (name-Part x h.0, Names-Part xs h.1)

walk-Names : (r : Bool) (ys st : List Text) → Names ys → walk r (reverse ys) st ≡ ys ++ st
walk-Names r [] st h = unfold walk in refl
walk-Names r (x ∷ ys) st h =
    ap (λ xs. walk r xs st) (reverse-append (x ∷ []) ys)
    ∙ (walk-append r (reverse ys) (x ∷ []) st
        ∙ (ap (λ t. walk r (x ∷ []) t) (walk-Names r ys st h.1)
            ∙ unfold walk in push_name r x (ys ++ st) h.0))

-- The path that names, from the top, lead to below a directory.
pub locate-Names :
    (dir : Text) (ys : List Text) (x : Text) (xs : List Text)
    → Names ys
    → reverse ys ≡ x ∷ xs
    → locate (join_path dir (render false (reverse ys))) ≡ ys ++ locate dir
locate-Names dir ys x xs h e =
    let all : All Part (reverse ys) = All-reverse Part ys (Names-Part ys h) in
    let parts : All Part (x ∷ xs) = rw e at all in
    let plain : is_rooted (join b'/' (x ∷ xs)) ≡ false = unrooted x xs parts.0 in
    let same : split b'/' (join b'/' (x ∷ xs)) ≡ x ∷ xs =
      split-join b'/' x xs (All-Lacks (x ∷ xs) parts) in
    ap (λ t. locate (join_path dir (render false t))) e
    ∙ (locate-join_path dir (join b'/' (x ∷ xs)) plain
        ∙ (ap (λ t. walk (is_rooted dir) t (elements dir) ++ root_of (is_rooted dir)) (same ∙ sym e)
            ∙ (ap (λ t. t ++ root_of (is_rooted dir))
                  (walk-Names (is_rooted dir) ys (elements dir) h)
                ∙ (append_assoc ys (elements dir) (root_of (is_rooted dir))
                    ∙ unfold locate in refl))))
