-- ===== src/Examples/Passed.antt =====
-- The unit tests of canister/src/blockforest.rs pass.
use bitcoin_dip.Base.{refl}
use bitcoin_dip.BlockForest.{push, pop, get_current_chain}
use bitcoin_dip.BlockTree.{depth, blockchains, find_mut, extend, contains}
use bitcoin_dip.TestBuilder.{build}
use bitcoin_dip.UnitTests.{Passes}
use bitcoin_dip.UnitTests.Trees
use bitcoin_dip.UnitTests.Trees.{push_all, extend_genesis}
use bitcoin_dip.UnitTests.Chains
use bitcoin_dip.Examples.Crate.{crate, mining, random}

empty-Passes : Passes (Trees.empty random)
unfolding build push pop push_all depth extend contains find_mut
empty-Passes = (refl, tt)

single_chain-Passes : Passes (Trees.single_chain random)
unfolding build push pop push_all depth extend contains find_mut
single_chain-Passes = (refl, (refl, tt))

forks-Passes : Passes (Trees.forks random)
unfolding build push pop push_all depth extend contains find_mut
forks-Passes = (refl, (refl, (refl, tt)))

detached_blocks-Passes : Passes (Trees.detached_blocks random)
unfolding build push pop push_all depth extend contains find_mut
detached_blocks-Passes = (refl, (refl, (refl, (refl, (refl, (refl, tt))))))

detached_blocks_2-Passes : Passes (Trees.detached_blocks_2 random)
unfolding build push pop push_all depth extend contains find_mut
detached_blocks_2-Passes = (refl, tt)

insert_predecessor-Passes : Passes (Trees.insert_predecessor random)
unfolding build push pop push_all depth extend contains find_mut
insert_predecessor-Passes = (refl, tt)

insert_in_order-Passes : Passes (Trees.insert_in_order random)
unfolding build push pop push_all depth extend contains find_mut
insert_in_order-Passes = (refl, (refl, (refl, (refl, tt))))

insert_in_reverse_order-Passes : Passes (Trees.insert_in_reverse_order random)
unfolding build push pop push_all depth extend contains find_mut
insert_in_reverse_order-Passes = (refl, (refl, (refl, (refl, tt))))

tree_single_block-Passes : Passes (Trees.tree_single_block random)
unfolding build blockchains depth
tree_single_block-Passes = (refl, (refl, tt))

tree_multiple_forks-Passes : Passes (Trees.tree_multiple_forks random)
unfolding build extend extend_genesis contains find_mut blockchains depth
tree_multiple_forks-Passes = (refl, (refl, (refl, (refl, (refl, tt)))))

get_current_chain_single_blockchain-Passes :
    Passes (Chains.get_current_chain_single_blockchain random)
unfolding build push push_all extend contains find_mut get_current_chain blockchains
get_current_chain_single_blockchain-Passes = (refl, tt)

get_current_chain_two_contesting_trees-Passes :
    Passes (Chains.get_current_chain_two_contesting_trees random)
unfolding build push push_all extend contains find_mut get_current_chain blockchains
get_current_chain_two_contesting_trees-Passes = (refl, tt)

get_current_chain_longer_fork-Passes : Passes (Chains.get_current_chain_longer_fork random)
unfolding build push push_all extend contains find_mut get_current_chain blockchains
get_current_chain_longer_fork-Passes = (refl, tt)

get_current_chain_fork_at_first_block-Passes :
    Passes (Chains.get_current_chain_fork_at_first_block random)
unfolding build push push_all extend contains find_mut get_current_chain blockchains
get_current_chain_fork_at_first_block-Passes = (refl, tt)

get_current_chain_multiple_forks-Passes : Passes (Chains.get_current_chain_multiple_forks random)
unfolding build push push_all extend contains find_mut get_current_chain blockchains
get_current_chain_multiple_forks-Passes = (refl, (refl, tt))

get_current_chain_multiple_forks_2-Passes :
    Passes (Chains.get_current_chain_multiple_forks_2 random)
unfolding build push push_all extend contains find_mut get_current_chain blockchains
get_current_chain_multiple_forks_2-Passes = (refl, tt)

get_current_chain_empty-Passes : Passes (Chains.get_current_chain_empty random)
unfolding build push push_all extend contains find_mut get_current_chain blockchains
get_current_chain_empty-Passes = (refl, tt)
