-- ===== src/Shim/Delivery.antt =====
-- Every queued transaction is taken out of the queue.
use bitcoin_dip.Base.{ℕ, suc, ◌≡◌, List, [], ◌∷◌, ◌++◌, map}
use bitcoin_dip.Bitcoin.{Bitcoin, Bytes}
use bitcoin_dip.Proto
use bitcoin_dip.Canister.{Canister}
use bitcoin_dip.Shim.{Handed, delivered, dropped, to_user}
use bitcoin_dip.Shim.Safety.{bytes_of}

-- How many of the transactions the adapter did not get.
abbrev pub missed : List Handed → ℕ
missed [] = 0
missed (delivered raw_tx ∷ hs) = missed hs
missed (dropped raw_tx ∷ hs) = suc (missed hs)
missed (to_user raw_tx ∷ hs) = suc (missed hs)

-- After `handed`, the transactions `q` are taken out, and then others.
abbrev TakesOut : List Handed → List Handed → List Bytes → Type 0
TakesOut handed later q =
    (out extra : List Handed) × (later ≡ handed ++ out ++ extra) × (map bytes_of out ≡ q)
