-- ===== src/Receipts/Topics.antt =====
-- syncer/parsereceipt.go: the topics that a log can have. A hash is the number that its bytes spell.
use anytoken_distribution.Base.{ℕ, Bool, true, false, ◌==◌, if◌then◌else◌}

pub data Topic : Type 0 where
  add_liquidity remove_liquidity token_purchase eth_purchase : Topic
  transfer approval create_exchange mint burn swap other : Topic

-- The switch on `rlog.Topics[0]`.
unfoldable pub topic_of : ℕ → Topic
topic_of hash =
    if hash == 0x06239653922ac7bea6aa2b19dc486b9361821d37712eb796adfd38d81de278ca
    then add_liquidity
    else if hash == 0x0fbf06c058b90cb038a618f8c2acbf6145f8b3570fd1fa56abb8f0f3f05b36e8
    then remove_liquidity
    else if hash == 0xcd60aa75dea3072fbc07ae6d7d856b5dc5f4eee88854f5b4abf7b680ef8bc50f
    then token_purchase
    else if hash == 0x7f4091b46c33e918a0f3aa42307641d17bb67029427a5369e54b353984238705
    then eth_purchase
    else if hash == 0xddf252ad1be2c89b69c2b068fc378daa952ba7f163c4a11628f55a4df523b3ef
    then transfer
    else if hash == 0x8c5be1e5ebec7d5bd14f71427d1e84f3dd0314c0f7b2291e5b200ac8c7c3b925
    then approval
    else if hash == 0x9d42cb017eb05bd8944ab536a8b35bc68085931dd5f4356489801453923953f9
    then create_exchange
    else if hash == 0x4c209b5fc8ad50758f13e2e1088ba56a560dff690a1c6fef26394f4c03821c4f
    then mint
    else if hash == 0xdccd412f0b1252819cb1fd330b93224ca42612892bb3f4f789976e6d81936496
    then burn
    else if hash == 0xd78ad95fa46c994b6551d0da85fc275fe613ce37657fb8d5e3d130840159d822
    then swap
    else other

-- `logTopic == topicTokenPurchase || logTopic == topicEthPurchase`
abbrev pub is_purchase : Topic → Bool
is_purchase token_purchase = true
is_purchase eth_purchase = true
is_purchase _ = false
