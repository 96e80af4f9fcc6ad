-- ===== src/Query/Syntax.antt =====
-- query/query.go: the query types. `Q` is an interface; its leaf types are the constructors of `Atom`.
use zoekt_archived.Prelude.{ℕ, Bool, List, Bytes}

-- regexp/syntax.Op, with the operators of that package.
pub data Op : Type 0 where
  no_match empty_match literal char_class any_char_not_nl any_char begin_line end_line : Op
  begin_text end_text word_boundary no_word_boundary capture star plus quest repeat : Op
  concat alternate : Op

-- regexp/syntax.Regexp: the fields Op, Rune, Min and Sub, which are those that the query code reads. The
-- first number stands for the others (Flags, Max, Cap, Name), which the code copies as they are.
mutual
  pub data Re : Type 0 where
    re : Op → ℕ → List ℕ → ℕ → Res → Re

  pub data Res : Type 0 where
    re_nil : Res
    re_cons : Re → Res → Res

pub record Substring : Type 0 where
  pub pattern_text : Bytes
  pub case_sensitive : Bool
  pub file_name : Bool
  pub content : Bool

pub record Regexp : Type 0 where
  pub regexp : Re
  pub file_name : Bool
  pub content : Bool
  pub case_sensitive : Bool

-- `absent` is the nil interface value. A set of repositories is the list of its keys with value true.
pub data Atom : Type 0 where
  substring : Substring → Atom
  regex : Regexp → Atom
  symbol : Substring → Atom
  case_q : Bytes → Atom
  language : Bytes → Atom
  repo : Bytes → Atom
  repo_set : List Bytes → Atom
  branch : Bytes → Atom
  or_operator : Atom
  absent : Atom

mutual
  pub data Q : Type 0 where
    and_q : Qs → Q
    or_q : Qs → Q
    not_q : Q → Q
    const : Bool → Q
    atom : Atom → Q

  pub data Qs : Type 0 where
    nil : Qs
    cons : Q → Qs → Qs
