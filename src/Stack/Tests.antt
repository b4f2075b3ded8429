-- ===== src/Stack/Tests.antt =====
-- A stack of two items, and the theorems at it.
use libcore.Base.{arith, some, [], ◌∷◌}
use libcore.ArrayList.Invariant.{IsValid}
use libcore.Stack.{Stack}

abbrev two : Stack
two = record { container = record { items = some 5 ∷ some 6 ∷ []; size = 2; capacity = 2 } }

two-IsValid : IsValid two.container
two-IsValid = omega arith
