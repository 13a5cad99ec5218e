-- ===== src/Proto.antt =====
-- The messages of canister/src/proto.proto, as the generated module `proto` has them: a field that
-- is a message is an `Option`, a repeated field a list. `Messages` is a `repeated BlockTree`.
pub mod Blocks
pub mod Trees
pub mod Utxos
pub mod States
pub mod RoundTrip
pub mod Reload
pub mod Restore
use bitcoin_dip.Base.{ℕ, Bool, Option, List, [], ◌∷◌, map, Outcome, returns, ◌>>=◌, ◌≡◌, refl}
use bitcoin_dip.Bitcoin.{Bytes, Height, Satoshi}

pub record BlockHeader : Type 0 where
  pub version : ℕ
  pub prev_blockhash : Bytes
  pub merkle_root : Bytes
  pub time : ℕ
  pub bits : ℕ
  pub nonce : ℕ

pub record OutPoint : Type 0 where
  pub txid : Bytes
  pub vout : ℕ

pub record TxIn : Type 0 where
  pub previous_output : Option OutPoint
  pub script_sig : Bytes
  pub sequence : ℕ
  pub witness : List Bytes

pub record TxOut : Type 0 where
  pub value : Satoshi
  pub script_pubkey : Bytes

pub record Transaction : Type 0 where
  pub version : ℕ
  pub lock_time : ℕ
  pub input : List TxIn
  pub output : List TxOut

pub record Block : Type 0 where
  pub header : Option BlockHeader
  pub txdata : List Transaction

mutual
  pub data BlockTree : Type 0 where
    message : Option Block → Messages → BlockTree

  pub data Messages : Type 0 where
    no_more : Messages
    then_more : BlockTree → Messages → Messages

pub record BlockForest : Type 0 where
  pub delta : ℕ
  pub trees : List BlockTree

pub record Utxo : Type 0 where
  pub outpoint : Option OutPoint
  pub txout : Option TxOut
  pub height : Height

pub record UtxoSet : Type 0 where
  pub utxos : List Utxo
  pub strict : Bool
  pub network : ℕ

pub record State : Type 0 where
  pub height : Height
  pub latest_stable_block_hash : Bytes
  pub utxos : Option UtxoSet
  pub unstable_blocks : Option BlockForest

-- `iter().map(f).collect()` where `f` may panic.
abbrev pub collect {ℓ κ} : {A : Type ℓ} {B : Type κ} → (A → Outcome B) → List A → Outcome (List B)
collect f [] = returns []
collect f (x ∷ xs) = f x >>= λ y. collect f xs >>= λ ys. returns (y ∷ ys)

-- What `f` reads back one by one, `collect` reads back.
pub collect-map {ℓ κ} :
    {A : Type ℓ} {B : Type κ} (f : B → Outcome A) (g : A → B)
    → ((a : A) → f (g a) ≡ returns a)
    → (xs : List A) → collect f (map g xs) ≡ returns xs
collect-map f g h [] = refl
collect-map f g h (x ∷ xs) = rw (h x, collect-map f g h xs) refl
