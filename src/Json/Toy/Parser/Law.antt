-- ===== src/Json/Toy/Parser/Law.antt =====
-- The parser of Json/Toy/Parser.antt on bytes: what Json/Toy.antt prints is ASCII.
use wasmagent_proxy.Base.{
  ℕ, zero, suc, ◌*◌, ◌≡◌, refl, sym, ap, ◌∙◌, true, List, [], ◌∷◌, ◌++◌, append-nil, Text, codes,
  length, ltb, as_bytes, All, some, ◌≤◌, arith,
}
use wasmagent_proxy.Json.{Value, string}
use wasmagent_proxy.Json.Members.{Entry}
use wasmagent_proxy.Json.Toy.{to_string, tally, print_numbers, numbers}
use wasmagent_proxy.Json.Toy.Parser.{parsing, from_slice, parse_value}
use wasmagent_proxy.Json.Toy.Parser.ReadsBack.{value-reads}
use wasmagent_proxy.Dsse.Canonical.{join}
use wasmagent_proxy.Dsse.Canonical.Renders.{
  Renders, EachRenders, MembersRender, array_of, object_of, no_items, item, no_members, member,
}
use wasmagent_proxy.Dsse.Sign.Statement.{Parses}

abbrev IsAscii : Text → Type 0
IsAscii t = All (λ c. ltb c 0x80 ≡ true) t

as_bytes-IsAscii : (t : Text) → IsAscii t → as_bytes t ≡ t
unfolding as_bytes
as_bytes-IsAscii [] h = refl
as_bytes-IsAscii (c ∷ t) (h, hs) = rw (h, as_bytes-IsAscii t hs) refl

append-IsAscii : (s t : Text) → IsAscii s → IsAscii t → IsAscii (s ++ t)
append-IsAscii [] t h k = k
append-IsAscii (c ∷ s) t (h, hs) k = (h, append-IsAscii s t hs k)

tally-IsAscii : (n : ℕ) (t : Text) → IsAscii t → IsAscii (tally n t)
unfolding tally
tally-IsAscii zero t h = (refl, h)
tally-IsAscii (suc n) t h = (refl, tally-IsAscii n t h)

print_numbers-IsAscii : (ns : List ℕ) → IsAscii (print_numbers ns)
unfolding print_numbers
print_numbers-IsAscii [] = (refl, tt)
print_numbers-IsAscii (n ∷ ns) = tally-IsAscii n (print_numbers ns) (print_numbers-IsAscii ns)

to_string-IsAscii : (v : Value) → IsAscii (to_string v)
unfolding to_string
to_string-IsAscii v = print_numbers-IsAscii (numbers v)

join-IsAscii : (ts : List Text) → All IsAscii ts → IsAscii (join ts)
unfolding join
join-IsAscii [] h = tt
join-IsAscii (t ∷ []) (h, hs) = h
join-IsAscii (t ∷ u ∷ ts) (h, hs) =
    append-IsAscii t (codes "," ++ join (u ∷ ts)) h (refl, join-IsAscii (u ∷ ts) hs)

mutual
  Renders-IsAscii : {v : Value} {t : Text} → Renders parsing v t → IsAscii t
  Renders-IsAscii (Renders.scalar v h) = to_string-IsAscii v
  Renders-IsAscii (array_of xs ts each) =
      (refl, append-IsAscii (join ts) (codes "]") (join-IsAscii ts (Each-IsAscii each)) (refl, tt))
  Renders-IsAscii (object_of m es ts all parts) = (
    refl,
    append-IsAscii (join ts) (codes "}") (join-IsAscii ts (Members-IsAscii parts)) (refl, tt),
  )

  Each-IsAscii : {vs : List Value} {ts : List Text} → EachRenders parsing vs ts → All IsAscii ts
  Each-IsAscii no_items = tt
  Each-IsAscii (item v t vs ts d each) = (Renders-IsAscii d, Each-IsAscii each)

  Members-IsAscii :
      {es : List Entry} {ts : List Text} → MembersRender parsing es ts → All IsAscii ts
  Members-IsAscii no_members = tt
  Members-IsAscii (member k v t es ts d parts) = (
    append-IsAscii (to_string (string k)) (codes ":" ++ t) (to_string-IsAscii (string k))
        (refl, Renders-IsAscii d),
    Members-IsAscii parts,
  )

-- The instance reads each JSON text of a value as that value.
pub parsing-Parses : Parses parsing
unfolding from_slice
parsing-Parses v t w limits d =
    let enough : 2 * length t ≤ 2 * length t = omega arith in
    let read = value-reads d (2 * length t) [] w enough in
    let whole : parse_value (suc (2 * length t)) t ≡ some (v, []) =
      ap (parse_value (suc (2 * length t))) (sym (append-nil t)) ∙ read in
    rw (as_bytes-IsAscii t (Renders-IsAscii d), whole) refl
