-- ===== src/Pattern.antt =====
-- The part of Go's package regexp that core/service_rules.go uses: a pattern is a list of pieces with one
-- group, and a match is the leftmost one, its repetitions taken in the engine's order of preference.
use yu_clash.Prelude.{
  ℕ, zero, suc, ◌-◌, Bool, true, false, not, ◌&&◌, ◌||◌, Option, none, some, List, [], ◌∷◌, ◌++◌,
  ◌==◌, if◌then◌else◌,
}
use yu_clash.Text.{Text, cut_prefix, is_between}

pub data Piece : Type 0 where
  literal : Text → Piece
  -- two literals, the first one preferred
  either : Text → Text → Piece
  -- a class of bytes, at least so often, at most so often when there is a limit
  greedy : ℕ → Option ℕ → (ℕ → Bool) → Piece
  -- `*?` of a class
  lazy : (ℕ → Bool) → Piece
  -- an end of the group
  mark : Piece

abbrev pub keep : Bool → Text → Text → Text
keep true group s = group ++ s
keep false group s = group

abbrev pub or_else {ℓ} : {A : Type ℓ} → Option A → Option A → Option A
or_else (some a) _ = some a
or_else none o = o

abbrev pub when_done : ℕ → Option Text → Option Text
when_done zero o = o
when_done (suc _) _ = none

abbrev pub one_less : Option ℕ → Option ℕ
one_less none = none
one_less (some n) = some (n - 1)

abbrev pub is_spent : Option ℕ → Bool
is_spent none = false
is_spent (some n) = n == 0

module _ (class : ℕ → Bool) (next : Text → Text → Option Text) (inside : Bool) where
  unfoldable pub match_greedy : ℕ → Option ℕ → Text → Text → Option Text
  match_greedy least most group [] = when_done least (next group [])
  match_greedy least most group (c ∷ s) =
      let longer = match_greedy (least - 1) (one_less most) (keep inside group (c ∷ [])) s in
      let here = when_done least (next group (c ∷ s)) in
      if class c && not (is_spent most) then or_else longer here else here

  unfoldable pub match_lazy : Text → Text → Option Text
  match_lazy group [] = next group []
  match_lazy group (c ∷ s) =
      let longer = match_lazy (keep inside group (c ∷ [])) s in
      or_else (next group (c ∷ s)) (if class c then longer else none)

abbrev pub match_rest : (Text → Option Text) → Option Text → Option Text
match_rest next none = none
match_rest next (some s) = next s

-- The group of a match that begins at the start of the text.
unfoldable pub match_here : List Piece → Bool → Text → Text → Option Text
unfolding match_greedy match_lazy
match_here [] inside group s = some group
match_here (literal t ∷ ps) inside group s =
    match_rest (match_here ps inside (keep inside group t)) (cut_prefix t s)
match_here (either t u ∷ ps) inside group s =
    or_else (match_rest (match_here ps inside (keep inside group t)) (cut_prefix t s))
      (match_rest (match_here ps inside (keep inside group u)) (cut_prefix u s))
match_here (greedy least most class ∷ ps) inside group s =
    match_greedy class (match_here ps inside) inside least most group s
match_here (lazy class ∷ ps) inside group s = match_lazy class (match_here ps inside) inside group s
match_here (mark ∷ ps) inside group s = match_here ps (not inside) group s

unfoldable pub search_text : List Piece → Text → Option Text
unfolding match_here
search_text ps [] = match_here ps false [] []
search_text ps (c ∷ s) = or_else (match_here ps false [] (c ∷ s)) (search_text ps s)

pub record Pattern : Type 0 where
  -- the pattern begins with `^`
  pub is_anchored : Bool
  pub pieces : List Piece

unfoldable pub find : Pattern → Text → Option Text
unfolding search_text
find p s = if p.is_anchored then match_here p.pieces false [] s else search_text p.pieces s

-- `firstSubmatch`.
unfoldable pub first_submatch : Pattern → Text → Text
unfolding find
first_submatch p s = elim (find p s) [ none ↦ [] | some group ↦ group ]

abbrev pub is_pattern_space : ℕ → Bool
is_pattern_space c = is_between 9 10 c || is_between 12 13 c || c == 32

abbrev pub spaces : Piece
spaces = greedy 0 none is_pattern_space

abbrev pub is_letter : ℕ → Bool
is_letter c = is_between 65 90 c || is_between 97 122 c

abbrev pub is_not : ℕ → ℕ → Bool
is_not quote c = not (c == quote)
