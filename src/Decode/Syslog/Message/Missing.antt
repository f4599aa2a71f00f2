-- ===== src/Decode/Syslog/Message/Missing.antt =====
-- `wrapInnerRecords` of internal/decode/syslog.go: the keys that a map has behind its loops.
use worm.Base.{
  ap, false, ◌≡◌, refl, sym, ◌∙◌, Option, none, some, Bytes, str_eq, str_eq_iff, Bool-cases, inl,
  inr,
}
use worm.Model.Value.{Value, Fields, end, field, lookup, lookup-insert}
use worm.Decode.Syslog.Message.{add_missing, add_one}

-- The value of a map, or another one.
abbrev pub value_or : Option Value → Value → Value
value_or none v = v
value_or (some w) v = w

lookup-add_one :
    (k j : Bytes) (v : Value) (dst : Fields) (o : Option Value)
    → str_eq j k ≡ false
    → lookup k (add_one j v dst o) ≡ lookup k dst
lookup-add_one k j v dst none e = lookup-insert j k v dst ∙ rw e refl
lookup-add_one k j v dst (some w) e = refl

-- A key that is there stays as it is.
lookup-add_missing_kept :
    (k : Bytes) (w : Value) (src dst : Fields)
    → lookup k dst ≡ some w
    → lookup k (add_missing src dst) ≡ some w
unfolding add_missing
lookup-add_missing_kept k w end dst h = h
lookup-add_missing_kept k w (field j v src) dst h =
    lookup-add_missing_kept k w src _ (elim (Bool-cases (str_eq j k)) [
      | inl e ↦
          let same : lookup j dst ≡ some w = ap (λ i. lookup i dst) ((str_eq_iff j k).0 e) ∙ h in
          ap (λ o. lookup k (add_one j v dst o)) same ∙ h
      | inr e ↦ lookup-add_one k j v dst (lookup j dst) e ∙ h
    ])

lookup-behind :
    (k j : Bytes) (w : Value) (m : Fields)
    → str_eq j k ≡ false
    → lookup k (field j w m) ≡ lookup k m
unfolding lookup
lookup-behind k j w m e = rw e refl

lookup-front : (k : Bytes) (w : Value) (m : Fields) → lookup k (field k w m) ≡ some w
unfolding lookup
lookup-front k w m = rw ((str_eq_iff k k).1 refl) refl

lookup-add_one_same :
    (k : Bytes) (v : Value) (dst : Fields) (o : Option Value)
    → lookup k dst ≡ o
    → lookup k (add_one k v dst o) ≡ some (value_or o v)
lookup-add_one_same k v dst none h = lookup-insert k k v dst ∙ rw ((str_eq_iff k k).1 refl) refl
lookup-add_one_same k v dst (some w) h = h

-- A key of the source has the value of the target, or that of the source where it had none.
pub lookup-add_missing :
    (k : Bytes) (v : Value) (src dst : Fields)
    → lookup k src ≡ some v
    → lookup k (add_missing src dst) ≡ some (value_or (lookup k dst) v)
unfolding add_missing
lookup-add_missing k v end dst h = unfold lookup in cc
lookup-add_missing k v (field j w src) dst h = elim (Bool-cases (str_eq j k)) [
  | inl e ↦
      let q = (str_eq_iff j k).0 e in
      let same_value : some w ≡ some v =
        sym (lookup-front k w src) ∙ ap (λ i. lookup k (field i w src)) (sym q) ∙ h in
      lookup-add_missing_kept k _ src _ (
        ap (λ i. lookup k (add_one i w dst (lookup i dst))) q
        ∙ lookup-add_one_same k w dst (lookup k dst) refl
        ∙ ap (λ o. some (value_or (lookup k dst) (value_or o w))) same_value)
  | inr e ↦
      lookup-add_missing k v src _ (sym (lookup-behind k j w src e) ∙ h)
      ∙ ap (λ o. some (value_or o v)) (lookup-add_one k j w dst (lookup j dst) e)
]
