-- ===== src/Server/Weights.antt =====
-- How a proxy shares its sessions among its addresses (stnet/simpleimp.go, SessionOpen of
-- ServiceProxyS, and stnet/server.go, AddTcpProxyService).
use gotools.Common.{
  ℕ, suc, ◌+◌, ◌%◌, ◌^◌, ◌≤◌, ◌<◌, ◌≡◌, refl, ap, ◌∙◌, arith, List, [], ◌∷◌, length, take, some,
  inr, dec_lt, ℕ_discrete,
}
use gotools.Config.Text.{Str}
use gotools.Server.{add_up, last, find_weight, session_open_at, proxy_param}

abbrev pub sum : List ℕ → ℕ
sum [] = 0
sum (w ∷ ws) = w + sum ws

-- The weights in front of a place.
abbrev pub before : ℕ → List ℕ → ℕ
before i ws = sum (take i ws)

record Found (r s k : ℕ) (ws : List ℕ) : Type 0 where
  i : ℕ
  at : find_weight r k (add_up s ws) ≡ some (k + i)
  place : i < length ws
  least : s + before i ws ≤ r
  most : r < s + before (suc i) ws

add_up-Found :
    (r s k : ℕ) (ws : List ℕ) → s ≤ r → r < s + sum ws → s + sum ws < 2 ^ 64 → Found r s k ws
unfolding find_weight
add_up-Found r s k [] le lt small = absurd (omega arith)
add_up-Found r s k (w ∷ ws) le lt small =
    let no_wrap : (s + w) % 2 ^ 64 ≡ s + w = omega arith in
    let same : k + 0 ≡ k = omega arith in
    elim (dec_lt r (s + w)) [
      | yes here ↦ record {
        i = 0;
        at = ground (arith, no_wrap, here, same);
        place = omega arith;
        least = omega arith;
        most = omega arith;
      }
      | no later ↦
          let f = add_up-Found r (s + w) (k + 1) ws (omega arith) (omega arith) (omega arith) in
          record {
            i = suc f.i;
            at =
                let next : k + 1 + f.i ≡ k + suc f.i = omega arith in
                ground (arith, no_wrap, later, f.at, next);
            place = omega (arith, f.place);
            least = omega (arith, f.least);
            most = omega (arith, f.most);
          }
    ]

last-add_up :
    (s w : ℕ) (ws : List ℕ)
    → s + sum (w ∷ ws) < 2 ^ 64
    → last (add_up s (w ∷ ws)) ≡ s + sum (w ∷ ws)
last-add_up s w [] small = omega arith
last-add_up s w (v ∷ ws) small =
    let no_wrap : (s + w) % 2 ^ 64 ≡ s + w = omega arith in
    ap (λ t. last (add_up t (v ∷ ws))) no_wrap
    ∙ last-add_up (s + w) v ws (omega arith)
    ∙ omega arith

length-add_up : (s : ℕ) (ws : List ℕ) → length (add_up s ws) ≡ length ws
length-add_up s [] = refl
length-add_up s (w ∷ ws) = ap suc (length-add_up ((s + w) % 2 ^ 64) ws)

proxy_param-kept :
    (addr kept : List Str) (ws weight : List ℕ)
    → proxy_param addr ws ≡ inr (kept, weight)
    → 1 < length addr
    → (kept ≡ addr) × (weight ≡ add_up 0 ws)
unfolding proxy_param
proxy_param-kept addr kept ws weight made lt = elim (ℕ_discrete (length addr) (length ws)) [
  | yes same ↦ (ground (arith, made, lt, same), ground (arith, made, lt, same))
  | no other ↦ absurd (ground (arith, made, lt, other))
]

session_open_at-found :
    (r i : ℕ) (ws : List ℕ)
    → 1 < length ws
    → find_weight (r % last ws) 0 ws ≡ some i
    → session_open_at ws r ≡ i
unfolding session_open_at
session_open_at-found r i ws lt at = ground (arith, at)

-- With as many weights as addresses, two at least, whose sum is positive and no overflow: the place
-- whose address a session gets is there, and the remainder of the random number by the sum is among
-- the numbers that are its share: as many as its weight, behind those of the places before it.
pub session_open_at-share :
    (addr : List Str) (w v : ℕ) (ws : List ℕ) (r : ℕ) (kept : List Str) (weight : List ℕ)
    → proxy_param addr (w ∷ v ∷ ws) ≡ inr (kept, weight)
    → length addr ≡ length (w ∷ v ∷ ws)
    → 0 < sum (w ∷ v ∷ ws)
    → sum (w ∷ v ∷ ws) < 2 ^ 63
    → let i = session_open_at weight r in
      let share = r % sum (w ∷ v ∷ ws) in
      (i < length kept) × (before i (w ∷ v ∷ ws) ≤ share) × (share < before (suc i) (w ∷ v ∷ ws))
session_open_at-share addr w v ws r kept weight made len pos small =
    let s = sum (w ∷ v ∷ ws) in
    let f = add_up-Found (r % s) 0 0 (w ∷ v ∷ ws) (omega arith) (omega arith) (omega arith) in
    let total : last (add_up 0 (w ∷ v ∷ ws)) ≡ s =
      last-add_up 0 w (v ∷ ws) (omega arith) ∙ omega arith in
    let count = length-add_up 0 (w ∷ v ∷ ws) in
    let (same, sums) = proxy_param-kept addr kept (w ∷ v ∷ ws) weight made (omega arith) in
    let found : find_weight (r % last (add_up 0 (w ∷ v ∷ ws))) 0 (add_up 0 (w ∷ v ∷ ws))
        ≡ some f.i =
      ap (λ t. find_weight (r % t) 0 (add_up 0 (w ∷ v ∷ ws))) total
      ∙ f.at
      ∙ ap some (omega arith) in
    let at : session_open_at weight r ≡ f.i =
      ap (λ l. session_open_at l r) sums
      ∙ session_open_at-found r f.i (add_up 0 (w ∷ v ∷ ws)) (omega (arith, count)) found in
    (
      omega (arith, f.place, at, len, ap (λ (l : List Str). length l) same),
      omega (arith, f.least, ap (λ i. before i (w ∷ v ∷ ws)) at),
      omega (arith, f.most, ap (λ i. before (suc i) (w ∷ v ∷ ws)) at),
    )
