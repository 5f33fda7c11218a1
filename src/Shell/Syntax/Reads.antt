-- ===== src/Shell/Syntax/Reads.antt =====
-- SP_LAB4/lexsyn.c: what the token array reads as, at an index between two parts of its list.
use fall_snu_system_pro.Base.{
  ◌+◌, Bool, true, false, none, some, List, [], ◌∷◌, ◌++◌, ◌≡◌, refl, ap, sym, subst, ◌∙◌, arith,
  ◌==◌, length, length-append, get_or, append_assoc,
}
use fall_snu_system_pro.Shell.DynArray.Contents.{
  Represents, dynarray_get-Represents, dynarray_get_length-Represents,
}
use fall_snu_system_pro.Shell.DynArray.{DynArray, dynarray_get, dynarray_get_length}
use fall_snu_system_pro.Shell.Lexer.Start.{pointers, length-pointers}
use fall_snu_system_pro.Shell.Syntax.{type_at, word_follows}
use fall_snu_system_pro.Shell.Token.{Token, is_word}

abbrev pub starts_word : List Token → Bool
starts_word [] = false
starts_word (t ∷ ts) = is_word t.token_type

abbrev pub is_empty : List Token → Bool
is_empty [] = true
is_empty (t ∷ ts) = false

get_or-pointers :
    (before : List Token) (t : Token) (after : List Token)
    → get_or (pointers (before ++ t ∷ after)) (length before) none ≡ some t
get_or-pointers [] t after = refl
get_or-pointers (b ∷ before) t after = get_or-pointers before t after

dynarray_get-pointers :
    (d : DynArray Token) (before : List Token) (t : Token) (after : List Token)
    → Represents d (pointers (before ++ t ∷ after))
    → dynarray_get d (length before) ≡ some (some t)
dynarray_get-pointers d before t after r = ground (
  arith,
  dynarray_get-Represents d (pointers (before ++ t ∷ after)) (length before) r,
  get_or-pointers before t after,
  length-pointers (before ++ t ∷ after),
  length-append before (t ∷ after),
)

pub type_at-Represents :
    (d : DynArray Token) (before : List Token) (t : Token) (after : List Token)
    → Represents d (pointers (before ++ t ∷ after))
    → type_at d (length before) ≡ some t.token_type
unfolding type_at
type_at-Represents d before t after r = ground (arith, dynarray_get-pointers d before t after r)

pub length-Represents :
    (d : DynArray Token) (ts : List Token)
    → Represents d (pointers ts)
    → dynarray_get_length d ≡ some (length ts)
length-Represents d ts r =
    dynarray_get_length-Represents d (pointers ts) r ∙ ap some (length-pointers ts)

-- The token behind the one at the index.
type_at-next :
    (d : DynArray Token) (before : List Token) (t u : Token) (after : List Token)
    → Represents d (pointers (before ++ t ∷ u ∷ after))
    → type_at d (length before + 1) ≡ some u.token_type
type_at-next d before t u after r =
    subst (λ k. type_at d k ≡ some u.token_type) (length-append before (t ∷ []))
      (type_at-Represents d (before ++ t ∷ []) u after (
        subst (λ ts. Represents d (pointers ts)) (sym (append_assoc before (t ∷ []) (u ∷ after)))
          r))

pub word_follows-Represents :
    (d : DynArray Token) (before : List Token) (t : Token) (after : List Token)
    → Represents d (pointers (before ++ t ∷ after))
    → word_follows d (length before) ≡ some (starts_word after)
unfolding word_follows
word_follows-Represents d before t [] r =
    ground (arith, length-Represents d (before ++ t ∷ []) r, length-append before (t ∷ []))
word_follows-Represents d before t (u ∷ after) r = ground (
  arith,
  length-Represents d (before ++ t ∷ u ∷ after) r,
  length-append before (t ∷ u ∷ after),
  type_at-next d before t u after r,
)

-- The test for the last index.
pub last_index :
    (before : List Token) (t : Token) (after : List Token)
    → (length before + 1 == length (before ++ t ∷ after)) ≡ is_empty after
last_index before t [] = ground (arith, length-append before (t ∷ []))
last_index before t (u ∷ after) = ground (arith, length-append before (t ∷ u ∷ after))

-- The same array after one token more.
pub Represents-next :
    (d : DynArray Token) (before : List Token) (t : Token) (after : List Token)
    → Represents d (pointers (before ++ t ∷ after))
    → Represents d (pointers ((before ++ t ∷ []) ++ after))
Represents-next d before t after =
    subst (λ ts. Represents d (pointers ts)) (sym (append_assoc before (t ∷ []) after))
