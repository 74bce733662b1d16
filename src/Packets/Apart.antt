-- ===== src/Packets/Apart.antt =====
-- Lists of names that differ.
use multi_networkpolicy_nfta.Packets.ListChains.{NotAmong, AllDiffer}
use multi_networkpolicy_nfta.Base.{
  All, everywhere, All-zip, All-split, Bytes, sym, ◌≢◌, List, [], ◌∷◌, ◌++◌,
}

pub AllDiffer-split :
    (xs ys : List Bytes)
    → AllDiffer (xs ++ ys)
    → AllDiffer xs × AllDiffer ys × All (λ n. NotAmong n ys) xs
AllDiffer-split [] ys d = (tt, d, tt)
AllDiffer-split (x ∷ xs) ys (n, d) =
    let (dx, dy, apart) = AllDiffer-split xs ys d in
    let (nx, ny) = All-split (λ k. x ≢ k) xs ys n in ((nx, dx), dy, (ny, apart))

pub Apart-sym : (xs ys : List Bytes) → All (λ n. NotAmong n ys) xs → All (λ n. NotAmong n xs) ys
Apart-sym [] ys h = everywhere (λ n. NotAmong n []) (λ n. tt) ys
Apart-sym (x ∷ xs) ys (first, rest) =
    All-zip (λ n. x ≢ n) (λ n. NotAmong n xs) (λ n. NotAmong n (x ∷ xs)) ys
      (λ n differs others. ((λ k. differs (sym k)), others)) first (Apart-sym xs ys rest)
