-- ===== src/Net/Tests.antt =====
-- A packet on which llarp/net/ip.cpp is tried.
use bittoro_network.Prelude.{ℕ, ◌%◌, ◌≡◌, true, List, [], ◌∷◌, arith}
use bittoro_network.Net.Ip.{load32, update_ipv4_address}
use bittoro_network.Net.Ip.Words.{words_sum}
use bittoro_network.Net.Ip.Checksum.{upper_sum, update_ipv4_address-sums}

-- A datagram of UDP with two bytes
abbrev datagram : List ℕ
datagram =
    69
    ∷ (0
        ∷ (0
            ∷ (30
                ∷ (18
                    ∷ (52
                        ∷ (0
                            ∷ (0
                                ∷ (64
                                    ∷ (17
                                        ∷ (90
                                            ∷ (156
                                                ∷ (192
                                                    ∷ (168
                                                        ∷ (0
                                                            ∷ (1
                                                            ∷ (192
                                                            ∷ (168
                                                            ∷ (0
                                                            ∷ (199
                                                            ∷ (19
                                                            ∷ (136
                                                            ∷ (0
                                                            ∷ (53
                                                            ∷ (0
                                                            ∷ (10
                                                            ∷ (171
                                                            ∷ (205
                                                            ∷ (104
                                                            ∷ (105 ∷ [])))))))))))))))))))))))))))))

update_ipv4_address-sums_example :
    let after = update_ipv4_address 16777226 50331658 datagram in
    (load32 12 after ≡ 16777226)
    × (load32 16 after ≡ 50331658)
    × (words_sum 10 after % 65535 ≡ words_sum 10 datagram % 65535)
    × (upper_sum true 10 after % 65535 ≡ upper_sum true 10 datagram % 65535)
update_ipv4_address-sums_example =
    update_ipv4_address-sums 16777226 50331658 datagram
      (
        omega arith,
        (
          omega arith,
          (
            omega arith,
            (
              omega arith,
              (
                omega arith,
                (
                  omega arith,
                  (
                    omega arith,
                    (
                      omega arith,
                      (
                        omega arith,
                        (
                          omega arith,
                          (
                            omega arith,
                            (
                              omega arith,
                              (
                                omega arith,
                                (
                                  omega arith,
                                  (
                                    omega arith,
                                    (
                                      omega arith,
                                      (
                                        omega arith,
                                        (
                                          omega arith,
                                          (
                                            omega arith,
                                            (
                                              omega arith,
                                              (
                                                omega arith,
                                                (
                                                  omega arith,
                                                  (
                                                    omega arith,
                                                    (
                                                      omega arith,
                                                      (
                                                        omega arith,
                                                        (
                                                          omega arith,
                                                          (
                                                            omega arith,
                                                            (
                                                            omega arith,
                                                            (omega arith, (omega arith, tt)),
                                                            ),
                                                          ),
                                                        ),
                                                      ),
                                                    ),
                                                  ),
                                                ),
                                              ),
                                            ),
                                          ),
                                        ),
                                      ),
                                    ),
                                  ),
                                ),
                              ),
                            ),
                          ),
                        ),
                      ),
                    ),
                  ),
                ),
              ),
            ),
          ),
        ),
      )
      (omega arith) (omega arith) (omega arith) (omega arith)
