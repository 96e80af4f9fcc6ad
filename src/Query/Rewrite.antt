-- ===== src/Query/Rewrite.antt =====
-- query/query.go: Map, evalConstants, flatten and Simplify.
pub mod BottomUp
pub mod Constants
pub mod Flatten
pub mod FlattenMeaning
pub mod Simplify
use zoekt_archived.Prelude.{ℕ, zero, suc, ◌+◌, Bool, true, false, not, ◌&&◌, ◌||◌, List, [], ◌∷◌}
use zoekt_archived.Prelude.{if◌then◌else◌}
use zoekt_archived.Query.Syntax.{
  Op, Re, re, Atom, Q, Qs, and_q, or_q, not_q, const, atom, nil, cons,
}
use zoekt_archived.Query.Syntax.{substring, regex, branch, repo_set}
use Prim.Native.Nat.{max}

-- Map, and mapQueryList over the children.
unfoldable mutual
  pub map_query : (Q → Q) → Q → Q
  map_query f (and_q qs) = f (and_q (map_query_list f qs))
  map_query f (or_q qs) = f (or_q (map_query_list f qs))
  map_query f (not_q q) = f (not_q (map_query f q))
  map_query f (const b) = f (const b)
  map_query f (atom a) = f (atom a)

  pub map_query_list : (Q → Q) → Qs → Qs
  map_query_list f nil = nil
  map_query_list f (cons q qs) = cons (map_query f q) (map_query_list f qs)

is_empty {ℓ} : {A : Type ℓ} → List A → Bool
is_empty [] = true
is_empty (x ∷ xs) = false

has_op_empty_match : Re → Bool
has_op_empty_match (re Op.empty_match o rs m sub) = true
has_op_empty_match _ = false

-- The leaves that evalConstants turns into TRUE.
unfoldable pub is_vacuous : Atom → Bool
unfolding is_empty has_op_empty_match
is_vacuous (substring s) = is_empty s.pattern_text
is_vacuous (regex r) = has_op_empty_match r.regexp
is_vacuous (branch p) = is_empty p
is_vacuous (repo_set s) = is_empty s
is_vacuous _ = false

-- The loop of evalAndOrConstants: an early `return ch`, or the children that are kept.
pub data Scan : Type 0 where
  returned : Q → Scan
  kept : Qs → Scan

abbrev keep : Q → Scan → Scan
keep q (returned r) = returned r
keep q (kept qs) = kept (cons q qs)

-- `c.Value == isAnd`
abbrev pub agrees : Bool → Bool → Bool
agrees true b = b
agrees false b = not b

unfoldable pub scan_constants : Bool → Qs → Scan
scan_constants is_and nil = kept nil
scan_constants is_and (cons (const b) qs) =
    let rest = scan_constants is_and qs in if agrees b is_and then rest else returned (const b)
scan_constants is_and (cons q qs) = keep q (scan_constants is_and qs)

abbrev pub and_or : Bool → Qs → Q
and_or true qs = and_q qs
and_or false qs = or_q qs

abbrev pub finish : Bool → Scan → Q
finish is_and (returned q) = q
finish is_and (kept nil) = const is_and
finish is_and (kept (cons q qs)) = and_or is_and (cons q qs)

-- evalAndOrConstants, on children that are already mapped.
unfoldable pub eval_and_or_constants : Bool → Qs → Q
unfolding scan_constants
eval_and_or_constants is_and children = finish is_and (scan_constants is_and children)

-- The Not case: invertConst on a constant, a new Not on anything else.
unfoldable pub negate : Q → Q
negate (const b) = const (not b)
negate q = not_q q

unfoldable pub eval_atom : Atom → Q
unfolding is_vacuous
eval_atom a = if is_vacuous a then const true else atom a

-- evalConstants calls Map, and Map calls evalConstants on what it built, so the recursion is on fuel.
unfoldable pub eval_constants_fuel : ℕ → Q → Q
unfolding eval_and_or_constants negate eval_atom map_query
eval_constants_fuel zero q = q
eval_constants_fuel (suc n) (and_q qs) =
    eval_and_or_constants true (map_query_list (eval_constants_fuel n) qs)
eval_constants_fuel (suc n) (or_q qs) =
    eval_and_or_constants false (map_query_list (eval_constants_fuel n) qs)
eval_constants_fuel (suc n) (not_q q) = negate (eval_constants_fuel n q)
eval_constants_fuel (suc n) (const b) = const b
eval_constants_fuel (suc n) (atom a) = eval_atom a

unfoldable mutual
  pub depth : Q → ℕ
  depth (and_q qs) = suc (depth_list qs)
  depth (or_q qs) = suc (depth_list qs)
  depth (not_q q) = suc (depth q)
  depth (const b) = 0
  depth (atom a) = 0

  pub depth_list : Qs → ℕ
  depth_list nil = 0
  depth_list (cons q qs) = max (depth q) (depth_list qs)

-- Fuel for every level of the query.
unfoldable pub eval_constants : Q → Q
unfolding eval_constants_fuel depth
eval_constants q = eval_constants_fuel (suc (depth q)) q

-- append(flat, subChildren...)
unfoldable pub append : Qs → Qs → Qs
append nil rs = rs
append (cons q qs) rs = cons q (append qs rs)

-- One child of flattenAndOr: spliced in if it is of the same type as its parent.
abbrev pub splice : Bool → Q → Bool → Qs × Bool → Qs × Bool
splice true (and_q sub) changed (flat, rest) = (append sub flat, true)
splice false (or_q sub) changed (flat, rest) = (append sub flat, true)
splice _ ch changed (flat, rest) = (cons ch flat, changed || rest)

-- `if len(s.Children) == 1 { return s.Children[0], true }`, before the second argument is used.
abbrev pub single_or : Qs → Q × Bool → Q × Bool
single_or (cons q nil) r = (q, true)
single_or _ r = r

unfoldable mutual
  pub flatten : Q → Q × Bool
  flatten (and_q qs) = single_or qs (and_q (flatten_and_or true qs).0, (flatten_and_or true qs).1)
  flatten (or_q qs) = single_or qs (or_q (flatten_and_or false qs).0, (flatten_and_or false qs).1)
  flatten (not_q q) = (not_q (flatten q).0, (flatten q).1)
  flatten (const b) = (const b, false)
  flatten (atom a) = (atom a, false)

  pub flatten_and_or : Bool → Qs → Qs × Bool
  flatten_and_or is_and nil = (nil, false)
  flatten_and_or is_and (cons ch qs) =
      splice is_and (flatten ch).0 (flatten ch).1 (flatten_and_or is_and qs)

unfoldable mutual
  pub size : Q → ℕ
  size (and_q qs) = suc (size_list qs)
  size (or_q qs) = suc (size_list qs)
  size (not_q q) = suc (size q)
  size (const b) = 1
  size (atom a) = 1

  pub size_list : Qs → ℕ
  size_list nil = 0
  size_list (cons q qs) = size q + size_list qs

-- The loop of Simplify. A round that changes the query makes it smaller.
unfoldable pub flatten_loop : ℕ → Q → Q
flatten_loop zero q = q
flatten_loop (suc n) q =
    let again = flatten_loop n (flatten q).0 in if (flatten q).1 then again else (flatten q).0

unfoldable pub simplify : Q → Q
unfolding eval_constants flatten_loop flatten size append
simplify q = flatten_loop (suc (size (eval_constants q))) (eval_constants q)
