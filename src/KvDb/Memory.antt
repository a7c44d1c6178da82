-- ===== src/KvDb/Memory.antt =====
-- A bolt database in memory: buckets by name, and in each the entries in the order of their keys.
use helper.Base.{
  ℕ, ◌≡◌, refl, sym, ap, ◌∙◌, true, false, Option, none, some, List, [], ◌∷◌, ◌⊎◌, inl, inr,
  if◌then◌else◌, bytes_eq, bytes_eq_iff, bytes_test, All, arith, Bool-cases, length, All-map,
}
use helper.Base.Dict.{lookup, insert, lookup-insert}
use helper.KvDb.{Bytes, default_set}
use helper.KvDb.Order.{bytes_le, Entry, Ascending, from_key, find_key, bytes_le_trans}
use helper.KvDb.Bolt.{Bolt}
use helper.KvDb.Ranges.{ReadLaws}
use helper.KvDb.Refines.{WriteLaws, value_of, update}

abbrev insert_entry : Bytes → Bytes → List Entry → List Entry
insert_entry k v [] = (k, v) ∷ []
insert_entry k v ((j, w) ∷ es) =
    let rest = insert_entry k v es in
    if bytes_eq j k
    then (k, v) ∷ es
    else if bytes_le k j
    then (k, v) ∷ (j, w) ∷ es
    else (j, w) ∷ rest

abbrev pub delete_entry : Bytes → List Entry → List Entry
delete_entry k [] = []
delete_entry k ((j, w) ∷ es) =
    let rest = delete_entry k es in if bytes_eq j k then rest else (j, w) ∷ rest

bytes_le_antisym : (a b : Bytes) → bytes_le a b ≡ true → bytes_le b a ≡ true → a ≡ b
bytes_le_antisym [] [] h g = refl
bytes_le_antisym [] (y ∷ b) h g = cc
bytes_le_antisym (x ∷ a) [] h g = cc
bytes_le_antisym (x ∷ a) (y ∷ b) h g = ground (arith, bytes_le_antisym a b)

find-insert_entry :
    (k j v : Bytes) (es : List Entry)
    → find_key j (insert_entry k v es) ≡ (if bytes_eq k j then some v else find_key j es)
find-insert_entry k j v [] = refl
find-insert_entry k j v ((i, w) ∷ es) =
    ground (arith, bytes_eq_iff k j, bytes_eq_iff i k, bytes_eq_iff i j, find-insert_entry k j v es)

pub find-delete_entry :
    (k j : Bytes) (es : List Entry)
    → find_key j (delete_entry k es) ≡ (if bytes_eq k j then none else find_key j es)
find-delete_entry k j [] = ground arith
find-delete_entry k j ((i, w) ∷ es) =
    ground (arith, bytes_eq_iff k j, bytes_eq_iff i k, bytes_eq_iff i j, find-delete_entry k j es)

-- Every key is above a given one.
abbrev Above : Bytes → List Entry → Type 0
Above k es = All (λ x. bytes_le x.0 k ≡ false) es

Above-insert_entry :
    (l k v : Bytes) (es : List Entry)
    → bytes_le k l ≡ false
    → Above l es
    → Above l (insert_entry k v es)
Above-insert_entry l k v [] h a = (h, tt)
Above-insert_entry l k v ((j, w) ∷ es) h a =
    ground (arith, a.0, h, Above-insert_entry l k v es h a.1)

Above-delete_entry : (l k : Bytes) (es : List Entry) → Above l es → Above l (delete_entry k es)
Above-delete_entry l k [] a = tt
Above-delete_entry l k ((j, w) ∷ es) a = ground (arith, a.0, Above-delete_entry l k es a.1)

not_below : (a b c : Bytes) → bytes_le a b ≡ true → bytes_le c b ≡ false → bytes_le c a ≡ false
not_below a b c h g = elim (Bool-cases (bytes_le c a)) [
  | inl e ↦ absurd (cc (bytes_le_trans c a b e h))
  | inr e ↦ e
]

Above-lower : (l k : Bytes) (es : List Entry) → bytes_le l k ≡ true → Above k es → Above l es
Above-lower l k es h a = All-map (λ e. not_below l k e.0 h) es a

strictly : (j k : Bytes) → bytes_eq j k ≡ false → bytes_le k j ≡ true → bytes_le j k ≡ false
strictly j k e b = elim (Bool-cases (bytes_le j k)) [
  | inl c ↦ absurd (cc (e, (bytes_eq_iff j k).1 (bytes_le_antisym j k c b)))
  | inr c ↦ c
]

pub insert_entry-Ascending :
    (k v : Bytes) (es : List Entry) → Ascending es → Ascending (insert_entry k v es)
insert_entry-Ascending k v [] h = (tt, tt)
insert_entry-Ascending k v ((j, w) ∷ es) h = elim (Bool-cases (bytes_eq j k)) [
  | inl e ↦ rw e (rw ((bytes_eq_iff j k).0 e) at h)
  | inr e ↦ elim (Bool-cases (bytes_le k j)) [
    | inl b ↦ rw (e, b) ((strictly j k e b, Above-lower k j es b h.0), h)
    | inr b ↦ rw (e, b) (Above-insert_entry j k v es b h.0, insert_entry-Ascending k v es h.1)
  ]
]

pub delete_entry-Ascending :
    (k : Bytes) (es : List Entry) → Ascending es → Ascending (delete_entry k es)
delete_entry-Ascending k [] h = tt
delete_entry-Ascending k ((j, w) ∷ es) h =
    ground (arith, Above-delete_entry j k es h.0, delete_entry-Ascending k es h.1)

pub record Bucket : Type 0 where
  pub entries : List Entry
  pub ascend : Ascending entries

abbrev pub Database : Type 0
Database = List (Bytes × Bucket)

abbrev empty_bucket : Bucket
empty_bucket = record { entries = []; ascend = tt }

abbrev create : Database → Bytes → Option Bucket → Database ⊎ ℕ
create t s none = inl (insert s empty_bucket t)
create t s (some b) = inl t

abbrev change : Database → Bytes → (Bucket → Bucket) → Option Bucket → Database ⊎ ℕ
change t s f none = inr 1
change t s f (some b) = inl (insert s (f b) t)

abbrev put_entry : Bytes → Bytes → Bucket → Bucket
put_entry k v b = record {
  entries = insert_entry k v b.entries;
  ascend = insert_entry-Ascending k v b.entries b.ascend;
}

abbrev pub remove_entry : Bytes → Bucket → Bucket
remove_entry k b = record {
  entries = delete_entry k b.entries;
  ascend = delete_entry-Ascending k b.entries b.ascend;
}

abbrev pub tail : List Entry → List Entry
tail [] = []
tail (e ∷ es) = es

abbrev pub head : List Entry → Option Entry
head [] = none
head (e ∷ es) = some e

abbrev pub last_of : List Entry → List Entry
last_of [] = []
last_of (e ∷ []) = e ∷ []
last_of (e ∷ x ∷ es) = last_of (x ∷ es)

-- A cursor is the entries from its position on.
abbrev pub memory : Bolt
memory = record {
  Handle = Database;
  Tx = Database;
  Bucket = Bucket;
  Cursor = List Entry;
  open_file = λ fn readonly. ([], none);
  begin_view = λ h. inl h;
  begin_update = λ h. inl h;
  commit = λ h t. (t, none);
  close_handle = λ h. (h, none);
  bucket = λ t s. lookup s t;
  create_bucket_if_not_exists = λ t s. create t s (lookup s t);
  bucket_get = λ b k. find_key k b.entries;
  bucket_put = λ t s k v. change t s (put_entry k v) (lookup s t);
  bucket_delete = λ t s k. change t s (remove_entry k) (lookup s t);
  next_sequence = λ t s. inl (t, length t);
  cursor_first = λ b. b.entries;
  cursor_last = λ b. last_of b.entries;
  cursor_seek = λ b k. from_key k b.entries;
  cursor_next = tail;
  current = head;
}

abbrev pub memory_reads : ReadLaws memory
memory_reads = record {
  entries = λ b. b.entries;
  ahead = λ c. c;
  entries_ascend = λ b. b.ascend;
  get_of = λ b k. refl;
  first_of = λ b. refl;
  seek_of = λ b k. refl;
  current_end = λ c h. rw h refl;
  current_at = λ c e es h. rw h refl;
  next_of = λ c e es h. rw h refl;
}

create-values :
    (t t' : Database) (s : Bytes)
    → create t s (lookup s t) ≡ inl t'
    → (r j : Bytes) → value_of memory t' r j ≡ value_of memory t r j
create-values t t' s h r j = by_lookup (lookup s t) refl h
  where
    by_lookup :
        (ob : Option Bucket)
        → lookup s t ≡ ob
        → create t s ob ≡ inl t'
        → value_of memory t' r j ≡ value_of memory t r j
    by_lookup (some b) e h = let same : t ≡ t' = cc h in ap (λ x. value_of memory x r j) (sym same)
    by_lookup none e h =
        let same : insert s empty_bucket t ≡ t' = cc h in
        ap (λ x. value_of memory x r j) (sym same)
        ∙ ground (arith, lookup-insert s r empty_bucket t, e, bytes_eq_iff s r)

change-values :
    (t t' : Database) (s k : Bytes) (w : Option Bytes) (f : Bucket → Bucket)
    → ((b : Bucket) (j : Bytes)
        → find_key j (f b).entries ≡ (if bytes_eq k j then w else find_key j b.entries))
    → change t s f (lookup s t) ≡ inl t'
    → (r j : Bytes) → value_of memory t' r j ≡ update (value_of memory t) s k w r j
change-values t t' s k w f law h r j = by_lookup (lookup s t) refl h
  where
    by_lookup :
        (ob : Option Bucket)
        → lookup s t ≡ ob
        → change t s f ob ≡ inl t'
        → value_of memory t' r j ≡ update (value_of memory t) s k w r j
    by_lookup none e h = absurd cc
    by_lookup (some b) e h =
        let same : insert s (f b) t ≡ t' = cc h in
        ap (λ x. value_of memory x r j) (sym same)
        ∙ ground (arith, lookup-insert s r (f b) t, e, bytes_eq_iff s r, law b j)

pub memory_writes : WriteLaws memory
memory_writes = record {
  begin_same = λ h t e. e;
  commit_seen = λ h t e. refl;
  commit_refused = λ h t e g. absurd cc;
  create_keeps = create-values;
  put_changes = λ t t' s k v.
      change-values t t' s k (some v) (put_entry k v) (λ b j. find-insert_entry k j v b.entries);
  delete_changes = λ t t' s k.
      change-values t t' s k none (remove_entry k) (λ b j. find-delete_entry k j b.entries);
}

abbrev pub entry : ℕ → Entry
entry n = (n ∷ [], n ∷ n ∷ [])

-- The default set has the keys 1, 3, 5 and 9.
abbrev pub four_keys : Database
four_keys =
    (
      default_set,
      record {
        entries = entry 1 ∷ entry 3 ∷ entry 5 ∷ entry 9 ∷ [];
        ascend = ((refl, (refl, (refl, tt))), ((refl, (refl, tt)), ((refl, tt), (tt, tt))));
      },
    )
    ∷ []
