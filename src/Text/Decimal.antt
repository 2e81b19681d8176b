-- ===== src/Text/Decimal.antt =====
-- `%d` of a number that is not negative, by its digits from the last one.
use event_pool.Prelude.{ℕ, zero, suc, ◌+◌, ◌/◌, ◌%◌, [], ◌∷◌, ◌++◌, if◌then◌else◌, ltb}
use event_pool.Text.{Text}

unfoldable pub print_loop : ℕ → ℕ → Text
print_loop zero n = []
print_loop (suc fuel) n =
    let more = print_loop fuel (n / 10) in
    if ltb n 10 then (48 + n) ∷ [] else more ++ (48 + n % 10) ∷ []

-- A number has at most as many digits as its value and one more.
unfoldable pub print_nat : ℕ → Text
unfolding print_loop
print_nat n = print_loop (n + 1) n
