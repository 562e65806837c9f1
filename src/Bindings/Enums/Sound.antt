-- ===== src/Bindings/Enums/Sound.antt =====
-- Names and values of the enumerations.
use Prim.Native.String.{String}
use text.Mathlib.Text.{◌==◌ as text_eq}
use text.Mathlib.TextEquality.{eq_iff}
use mathlib.Core.List.{Memᴰ}
use mathlib.Core.Path.{subst}
use sysc_wayland.Base.{
  ℕ, ◌≡◌, ◌≢◌, ◌↔◌, refl, sym, ap, ◌∙◌, Bool, true, false, not, ◌&&◌, List, [], ◌∷◌, Option, none,
  some, arith, ◌==◌, ==_iff, if◌then◌else◌, Bool-cases, inl, inr,
}
use sysc_wayland.Bindings.Enums.{Switch, select, Enum, name, value}
use sysc_wayland.Bindings.Enums.Numerals.{numeral}
use sysc_wayland.Bindings.Enums.All.{enums}

-- `n` is one of the numbers, one of the cases.
abbrev pub member : ℕ → List ℕ → Bool
member n [] = false
member n (k ∷ ks) = if n == k then true else member n ks

-- What the methods of an enumeration should do: exactly its constants have a name, no two
-- constants share one, and the value of a constant is a numeral of its number.
pub record IsSound (e : Enum) : Type 0 where
  pub named : (n : ℕ) → (member n e.constants ≡ true) ↔ (name e n ≢ "")
  pub distinct : (m n : ℕ) → name e m ≡ name e n → name e m ≢ "" → m ≡ n
  pub spelled : (n : ℕ) → member n e.constants ≡ true → numeral (value e n) ≡ some n

-- The checks on the tables that this amounts to.
nonempty : Switch → Bool
nonempty [] = true
nonempty ((k, s) ∷ cases) = not (text_eq s "") && nonempty cases

absent : String → Switch → Bool
absent t [] = true
absent t ((k, s) ∷ cases) = not (text_eq s t) && absent t cases

pairwise : Switch → Bool
unfolding absent
pairwise [] = true
pairwise ((k, s) ∷ cases) = absent s cases && pairwise cases

same_keys : Switch → List ℕ → Bool
same_keys [] [] = true
same_keys [] (k ∷ ks) = false
same_keys (c ∷ cases) [] = false
same_keys ((j, s) ∷ cases) (k ∷ ks) = j == k && same_keys cases ks

is_numeral_of : ℕ → Option ℕ → Bool
is_numeral_of n none = false
is_numeral_of n (some m) = m == n

all_spelled : Switch → List ℕ → Bool
unfolding is_numeral_of
all_spelled values [] = true
all_spelled values (k ∷ ks) = is_numeral_of k (numeral (select values k)) && all_spelled values ks

check : Enum → Bool
unfolding nonempty pairwise same_keys all_spelled
check e =
    same_keys e.names e.constants
    && (nonempty e.names && (pairwise e.names && all_spelled e.values e.constants))

check_all : List Enum → Bool
unfolding check
check_all [] = true
check_all (e ∷ es) = check e && check_all es

checked : check_all enums ≡ true
unfolding check_all
checked = refl

and_parts : (a b : Bool) → (a && b) ≡ true → (a ≡ true) × (b ≡ true)
and_parts true b h = (refl, h)
and_parts false b h = absurd (ground arith)

not_empty : (s : String) → (text_eq s "" ≡ false) → s ≢ ""
not_empty s h e = ground (arith, eq_iff s "")

-- A text that no case returns is not the switch's, unless it is that of the default case.
select-absent :
    (t : String) (cases : Switch) (n : ℕ) → absent t cases ≡ true → t ≢ "" → select cases n ≢ t
unfolding absent
select-absent t [] n h full e = full (sym e)
select-absent t ((k, s) ∷ cases) n h full e =
    let rest = select-absent t cases n in ground (arith, eq_iff s t, rest)

select_first :
    (k : ℕ) (s : String) (cases : Switch) (n : ℕ) → (n == k) ≡ true → select ((k, s) ∷ cases) n ≡ s
select_first k s cases n h = rw h refl

select_later :
    (k : ℕ) (s : String) (cases : Switch) (n : ℕ)
    → (n == k) ≡ false
    → select ((k, s) ∷ cases) n ≡ select cases n
select_later k s cases n h = rw h refl

select-pairwise :
    (cases : Switch) (m n : ℕ)
    → pairwise cases ≡ true
    → select cases m ≡ select cases n
    → select cases m ≢ ""
    → m ≡ n
unfolding pairwise
select-pairwise [] m n h e full = absurd (full refl)
select-pairwise ((k, s) ∷ cases) m n h e full =
    let (a, b) = and_parts (absent s cases) (pairwise cases) h in
    elim (Bool-cases (m == k)) [
      | inl first ↦
          let here = select_first k s cases m first in
          let full' : s ≢ "" = λ empty. full (here ∙ empty) in
          elim (Bool-cases (n == k)) [
            | inl also ↦ (==_iff m k).0 first ∙ sym ((==_iff n k).0 also)
            | inr later ↦ absurd (
                select-absent s cases n a full'
                  (sym (select_later k s cases n later) ∙ sym e ∙ here))
          ]
      | inr later ↦
          let there = select_later k s cases m later in
          elim (Bool-cases (n == k)) [
            | inl first ↦
                let here = select_first k s cases n first in
                let empty : s ≢ "" = λ empty. full (e ∙ here ∙ empty) in
                absurd (select-absent s cases m a empty (sym there ∙ e ∙ here))
            | inr too ↦
                select-pairwise cases m n b (sym there ∙ e ∙ select_later k s cases n too)
                  (λ empty. full (there ∙ empty))
          ]
    ]

select-member :
    (cases : Switch) (ks : List ℕ) (n : ℕ)
    → nonempty cases ≡ true
    → same_keys cases ks ≡ true
    → (member n ks ≡ true) ↔ (select cases n ≢ "")
unfolding nonempty same_keys
select-member [] [] n full same = ((λ h. cc), λ h. absurd (h refl))
select-member [] (k ∷ ks) n full same = cc
select-member (c ∷ cases) [] n full same = cc
select-member ((j, s) ∷ cases) (k ∷ ks) n full same =
    let (here, full') = and_parts (not (text_eq s "")) (nonempty cases) full in
    let (key, same') = and_parts (j == k) (same_keys cases ks) same in
    let rest = select-member cases ks n full' same' in
    let jk : j ≡ k = (==_iff j k).0 key in
    rw (← jk) (elim (Bool-cases (n == j)) [
      | inl first ↦ rw first ((λ _. not_empty s (ground arith)), λ _. refl)
      | inr later ↦ rw later rest
    ])

member-spelled :
    (values : Switch) (ks : List ℕ) (n : ℕ)
    → all_spelled values ks ≡ true
    → member n ks ≡ true
    → numeral (select values n) ≡ some n
unfolding all_spelled is_numeral_of
member-spelled values [] n h m = cc
member-spelled values (k ∷ ks) n h m =
    let (here, rest) =
      and_parts (is_numeral_of k (numeral (select values k))) (all_spelled values ks) h in
    elim (Bool-cases (n == k)) [
      | inl first ↦ rw ((==_iff n k).0 first) (spelled_by k (numeral (select values k)) here)
      | inr later ↦
          member-spelled values ks n rest
            (sym (ap (λ b. if b then true else member n ks) later) ∙ m)
    ]
  where
    spelled_by : (k : ℕ) (o : Option ℕ) → is_numeral_of k o ≡ true → o ≡ some k
    spelled_by k none h = cc
    spelled_by k (some j) h = ap some ((==_iff j k).0 h)

check-IsSound : (e : Enum) → check e ≡ true → IsSound e
unfolding check name value
check-IsSound e h =
    let (keys, h') = and_parts (same_keys e.names e.constants) _ h in
    let (full, h'') = and_parts (nonempty e.names) _ h' in
    let (apart, spelled) = and_parts (pairwise e.names) _ h'' in
    record {
      named = λ n. select-member e.names e.constants n full keys;
      distinct = λ m n. select-pairwise e.names m n apart;
      spelled = λ n. member-spelled e.values e.constants n spelled;
    }

check_all-IsSound : (es : List Enum) → check_all es ≡ true → (e : Enum) → Memᴰ e es → IsSound e
unfolding check_all
check_all-IsSound [] h e m = elim m [ ]
check_all-IsSound (d ∷ es) h e (Memᴰ.head same) =
    subst IsSound (sym same) (check-IsSound d (and_parts (check d) (check_all es) h).0)
check_all-IsSound (d ∷ es) h e (Memᴰ.tail m) =
    check_all-IsSound es (and_parts (check d) (check_all es) h).1 e m

-- The methods of every enumeration of the bindings are sound: `Name` returns a text that is not
-- empty for exactly the constants of the enumeration, no two constants share a name, and the text
-- that `Value` returns for a constant is a decimal or hexadecimal numeral of that constant.
pub enums-AreSound : (e : Enum) → Memᴰ e enums → IsSound e
enums-AreSound = check_all-IsSound enums checked
