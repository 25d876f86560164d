-- ===== src/Amf/Maps.antt =====
-- The fields of an object that were written in the order of their keys, put in a map again.
use Prim.Native.Nat.{Ordering}
use peercast_yt.Prelude.{ℕ, ◌≡◌, refl, sym, ap, ◌∙◌, List}
use peercast_yt.Dict.{compare_text}
use peercast_yt.Dict.Laws.{lt→gt}
use peercast_yt.Amf.{Value, Fields, nil, cons, put, put_all}

append : Fields → Fields → Fields
append nil m = m
append (cons k v fs) m = cons k v (append fs m)

append-nil : (m : Fields) → append m nil ≡ m
unfolding append
append-nil nil = refl
append-nil (cons k v m) = ap (cons k v) (append-nil m)

append-cons :
    (m : Fields) (k : List ℕ) (v : Value) (fs : Fields)
    → append (append m (cons k v nil)) fs ≡ append m (cons k v fs)
unfolding append
append-cons nil k v fs = refl
append-cons (cons k' v' m) k v fs = ap (cons k' v') (append-cons m k v fs)

-- Every key of the map comes before the key, or behind it.
abbrev pub Below : Fields → List ℕ → Type 0
Below nil key = Unit
Below (cons k v m) key = (compare_text k key ≡ Ordering.lt) × Below m key

abbrev pub Before : List ℕ → Fields → Type 0
Before key nil = Unit
Before key (cons k v m) = (compare_text key k ≡ Ordering.lt) × Before key m

abbrev pub IsSorted : Fields → Type 0
IsSorted nil = Unit
IsSorted (cons k v m) = Before k m × IsSorted m

IsApart : Fields → Fields → Type 0
IsApart m nil = Unit
IsApart m (cons k v fs) = Below m k × IsApart m fs

put-Below :
    (key : List ℕ) (v : Value) (m : Fields) → Below m key → put key v m ≡ append m (cons key v nil)
unfolding put append
put-Below key v nil h = refl
put-Below key v (cons k w m) h = rw (lt→gt k key h.0, put) (ap (cons k w) (put-Below key v m h.1))

Below-append :
    (m : Fields) (k key : List ℕ) (v : Value)
    → Below m key
    → compare_text k key ≡ Ordering.lt
    → Below (append m (cons k v nil)) key
unfolding append
Below-append nil k key v h l = (l, tt)
Below-append (cons k' v' m) k key v h l = (h.0, Below-append m k key v h.1 l)

IsApart-move :
    (m fs : Fields) (k : List ℕ) (v : Value)
    → IsApart m fs
    → Before k fs
    → IsApart (append m (cons k v nil)) fs
unfolding IsApart
IsApart-move m nil k v a b = tt
IsApart-move m (cons k' v' fs) k v a b =
    (Below-append m k k' v a.0 b.0, IsApart-move m fs k v a.1 b.1)

put_all-append : (fs m : Fields) → IsSorted fs → IsApart m fs → put_all fs m ≡ append m fs
unfolding put_all IsApart
put_all-append nil m s a = sym (append-nil m)
put_all-append (cons k v fs) m s a =
    ap (put_all fs) (put-Below k v m a.0)
    ∙ put_all-append fs (append m (cons k v nil)) s.1 (IsApart-move m fs k v a.1 s.0)
    ∙ append-cons m k v fs

IsApart-nil : (fs : Fields) → IsApart nil fs
unfolding IsApart
IsApart-nil nil = tt
IsApart-nil (cons k v fs) = (tt, IsApart-nil fs)

pub put_all-IsSorted : (fs : Fields) → IsSorted fs → put_all fs nil ≡ fs
unfolding append
put_all-IsSorted fs s = put_all-append fs nil s (IsApart-nil fs)
