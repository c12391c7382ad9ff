-- ===== src/Potato/Ring.antt =====
-- The ring of ports that master.c hands out: each player's neighbours listen where it sends.
use osprograms.Base.{
  ℕ, zero, suc, ◌+◌, ◌-◌, ◌%◌, ◌^◌, ◌<◌, ◌≡◌, refl, sym, ap, ◌∙◌, ◌⊎◌, inl, inr, true, false, not,
  ◌&&◌, some, arith, ◌==◌, Bool-cases,
}
use osprograms.Potato.Master.{seat, htons, reaches, Message}
use osprograms.Potato.Player.{Libc, Chance, send, left_player, right_player, play}
use osprograms.Potato.Game.{listener, pass}
use native.Mathlib.Nat.{mod-lt, mod-eq_of_lt, mod_self}

-- Ports that are no more than 65535, the largest one being that of the last player.
pub listener-cport :
    (port nplayers k i : ℕ)
    → i < k
    → port + k < 2 ^ 16
    → listener port nplayers k (port + i + 1) ≡ some i
unfolding listener seat reaches
listener-cport port nplayers zero i l low = absurd (omega arith)
listener-cport port nplayers (suc k) i l low = elim (Bool-cases (k == i)) [
  | inl same ↦
      let t : (htons (port + k + 1) == htons (port + i + 1) && not (htons (port + i + 1) == 0))
          ≡ true =
        ground (arith, same) in
      let e : k ≡ i = ground (arith, same) in rw t (ap some e)
  | inr differ ↦
      let t : (htons (port + k + 1) == htons (port + i + 1) && not (htons (port + i + 1) == 0))
          ≡ false =
        ground (arith, differ) in
      rw t (listener-cport port nplayers k i (ground (arith, differ)) (omega arith))
]

-- Beside each other in the ring.
abbrev pub AreNeighbours : ℕ → ℕ → ℕ → Type 0
AreNeighbours nplayers i j = (j ≡ (i + 1) % nplayers) ⊎ (i ≡ (j + 1) % nplayers)

-- The port at which a player sends is that of the neighbour whose number it prints.
abbrev pub IsLink : ℕ → ℕ → ℕ → ℕ → ℕ → Type 0
IsLink port nplayers i at j = (j < nplayers) × (at ≡ port + j + 1) × AreNeighbours nplayers i j

module _ (port nplayers i : ℕ) (here : i < nplayers) where
  pub right-IsLink :
      IsLink port nplayers i (seat port nplayers i).rport (right_player (seat port nplayers i))
  unfolding seat
  right-IsLink = elim (Bool-cases (i + 1 == nplayers)) [
    | inl end ↦
        let e : i + 1 ≡ nplayers = ground (arith, end) in
        let z : (i + 1) % nplayers ≡ 0 = ap (λ k. k % nplayers) e ∙ mod_self nplayers in
        (mod-lt (i + 1) (omega arith), rw end (omega (arith, z)), inl refl)
    | inr inside ↦
        let l : i + 1 < nplayers = ground (arith, inside) in
        let z : (i + 1) % nplayers ≡ i + 1 = mod-eq_of_lt l in
        (mod-lt (i + 1) (omega arith), rw inside (omega (arith, z)), inl refl)
  ]

  pub left-IsLink :
      IsLink port nplayers i (seat port nplayers i).lport (left_player (seat port nplayers i))
  unfolding seat
  left-IsLink = elim (Bool-cases (i == 0)) [
    | inl first ↦
        let e : i ≡ 0 = ground (arith, first) in
        let z : (nplayers - 1 + 1) % nplayers ≡ 0 =
          ap (λ k. k % nplayers) (round nplayers here) ∙ mod_self nplayers in
        rw first (omega arith, omega arith, inr (e ∙ sym z))
    | inr later ↦
        let e : i - 1 + 1 ≡ i = ground (arith, later) in
        let z : (i - 1 + 1) % nplayers ≡ i = ap (λ k. k % nplayers) e ∙ mod-eq_of_lt here in
        rw later (omega arith, omega (arith, e), inr (sym z))
  ]
    where
      round : (n : ℕ) → i < n → n - 1 + 1 ≡ n
      round n l = omega arith

  -- The ports that the master gives to a player of the ring: the left one and the right one are
  -- those where the players listen whose numbers the player computes for its neighbours, both are
  -- players of the ring, and they stand beside the player in it.
  pub seat-IsLink :
      IsLink port nplayers i (seat port nplayers i).lport (left_player (seat port nplayers i))
      × IsLink port nplayers i (seat port nplayers i).rport (right_player (seat port nplayers i))
  seat-IsLink = (left-IsLink, right-IsLink)

module _ (libc : Libc) (port nplayers : ℕ) (low : port + nplayers < 2 ^ 16) where
  -- A message that is sent over a link arrives.
  pub pass-send :
      (chances : ℕ → Chance) (fuel i at j : ℕ) (m m' : Message)
      → play libc (seat port nplayers i) (chances 0) m ≡ send at j m'
      → IsLink port nplayers i at j
      → pass libc port nplayers chances (suc fuel) i m
        ≡ pass libc port nplayers (λ n. chances (n + 1)) fuel j m'
  unfolding pass
  pass-send chances fuel i at j m m' played link =
      let found : listener port nplayers nplayers at ≡ some j =
        ap (λ n. listener port nplayers nplayers n) link.1
        ∙ listener-cport port nplayers nplayers j link.0 low in
      rw (pass, played, found) refl
