-- ===== src/Scanner/Tables.antt =====
-- The tables of the scanner that flex made for Assig1 (Assig1/lex.yy.c).
use c.Base.{ℕ, List, [], ◌∷◌}

unfoldable pub yy_accept : List ℕ
yy_accept =
    0 ∷ 0 ∷ 0 ∷ 11 ∷ 10 ∷ 1 ∷ 2 ∷ 10 ∷ 10 ∷ 4 ∷ 2 ∷ 2 ∷ 2 ∷ 4 ∷ 10 ∷ 7 ∷ 2 ∷ 2 ∷ 2 ∷ 8 ∷ 8 ∷ 8 ∷ 8
    ∷ 8 ∷ 8 ∷ 8 ∷ 8 ∷ 8 ∷ 8 ∷ 8 ∷ 10 ∷ 2 ∷ 0 ∷ 5 ∷ 0 ∷ 0 ∷ 7 ∷ 7 ∷ 9 ∷ 0 ∷ 8 ∷ 8 ∷ 8 ∷ 8 ∷ 8 ∷ 3 ∷ 8
    ∷ 8 ∷ 8 ∷ 8 ∷ 8 ∷ 8 ∷ 8 ∷ 0 ∷ 8 ∷ 8 ∷ 8 ∷ 8 ∷ 8 ∷ 8 ∷ 8 ∷ 8 ∷ 8 ∷ 0 ∷ 7 ∷ 8 ∷ 8 ∷ 8 ∷ 8 ∷ 8 ∷ 8
    ∷ 8 ∷ 6 ∷ 8 ∷ 8 ∷ 8 ∷ 8 ∷ 8 ∷ 0 ∷ []

unfoldable pub yy_ec : List ℕ
yy_ec =
    0 ∷ 1 ∷ 1 ∷ 1 ∷ 1 ∷ 1 ∷ 1 ∷ 1 ∷ 1 ∷ 1 ∷ 2 ∷ 1 ∷ 1 ∷ 1 ∷ 1 ∷ 1 ∷ 1 ∷ 1 ∷ 1 ∷ 1 ∷ 1 ∷ 1 ∷ 1 ∷ 1
    ∷ 1 ∷ 1 ∷ 1 ∷ 1 ∷ 1 ∷ 1 ∷ 1 ∷ 1 ∷ 1 ∷ 3 ∷ 4 ∷ 1 ∷ 1 ∷ 1 ∷ 5 ∷ 1 ∷ 6 ∷ 7 ∷ 8 ∷ 9 ∷ 10 ∷ 11 ∷ 12
    ∷ 13 ∷ 14 ∷ 14 ∷ 14 ∷ 14 ∷ 14 ∷ 14 ∷ 14 ∷ 14 ∷ 14 ∷ 14 ∷ 1 ∷ 15 ∷ 16 ∷ 17 ∷ 18 ∷ 1 ∷ 1 ∷ 19 ∷ 19
    ∷ 19 ∷ 19 ∷ 20 ∷ 19 ∷ 19 ∷ 19 ∷ 19 ∷ 19 ∷ 19 ∷ 19 ∷ 19 ∷ 19 ∷ 19 ∷ 19 ∷ 19 ∷ 19 ∷ 19 ∷ 19 ∷ 19
    ∷ 19 ∷ 19 ∷ 19 ∷ 19 ∷ 19 ∷ 21 ∷ 1 ∷ 22 ∷ 1 ∷ 23 ∷ 1 ∷ 24 ∷ 19 ∷ 25 ∷ 26 ∷ 27 ∷ 28 ∷ 29 ∷ 30 ∷ 31
    ∷ 19 ∷ 19 ∷ 32 ∷ 19 ∷ 33 ∷ 34 ∷ 35 ∷ 19 ∷ 36 ∷ 37 ∷ 38 ∷ 39 ∷ 40 ∷ 41 ∷ 19 ∷ 42 ∷ 19 ∷ 43 ∷ 44
    ∷ 45 ∷ 1 ∷ 1 ∷ 1 ∷ 1 ∷ 1 ∷ 1 ∷ 1 ∷ 1 ∷ 1 ∷ 1 ∷ 1 ∷ 1 ∷ 1 ∷ 1 ∷ 1 ∷ 1 ∷ 1 ∷ 1 ∷ 1 ∷ 1 ∷ 1 ∷ 1 ∷ 1
    ∷ 1 ∷ 1 ∷ 1 ∷ 1 ∷ 1 ∷ 1 ∷ 1 ∷ 1 ∷ 1 ∷ 1 ∷ 1 ∷ 1 ∷ 1 ∷ 1 ∷ 1 ∷ 1 ∷ 1 ∷ 1 ∷ 1 ∷ 1 ∷ 1 ∷ 1 ∷ 1 ∷ 1
    ∷ 1 ∷ 1 ∷ 1 ∷ 1 ∷ 1 ∷ 1 ∷ 1 ∷ 1 ∷ 1 ∷ 1 ∷ 1 ∷ 1 ∷ 1 ∷ 1 ∷ 1 ∷ 1 ∷ 1 ∷ 1 ∷ 1 ∷ 1 ∷ 1 ∷ 1 ∷ 1 ∷ 1
    ∷ 1 ∷ 1 ∷ 1 ∷ 1 ∷ 1 ∷ 1 ∷ 1 ∷ 1 ∷ 1 ∷ 1 ∷ 1 ∷ 1 ∷ 1 ∷ 1 ∷ 1 ∷ 1 ∷ 1 ∷ 1 ∷ 1 ∷ 1 ∷ 1 ∷ 1 ∷ 1 ∷ 1
    ∷ 1 ∷ 1 ∷ 1 ∷ 1 ∷ 1 ∷ 1 ∷ 1 ∷ 1 ∷ 1 ∷ 1 ∷ 1 ∷ 1 ∷ 1 ∷ 1 ∷ 1 ∷ 1 ∷ 1 ∷ 1 ∷ 1 ∷ 1 ∷ 1 ∷ 1 ∷ 1 ∷ 1
    ∷ 1 ∷ 1 ∷ 1 ∷ 1 ∷ 1 ∷ 1 ∷ 1 ∷ 1 ∷ 1 ∷ 1 ∷ 1 ∷ []

unfoldable pub yy_meta : List ℕ
yy_meta =
    0 ∷ 1 ∷ 2 ∷ 1 ∷ 1 ∷ 1 ∷ 1 ∷ 1 ∷ 1 ∷ 1 ∷ 1 ∷ 1 ∷ 1 ∷ 1 ∷ 3 ∷ 1 ∷ 1 ∷ 1 ∷ 1 ∷ 3 ∷ 3 ∷ 1 ∷ 1 ∷ 3
    ∷ 3 ∷ 3 ∷ 3 ∷ 3 ∷ 3 ∷ 3 ∷ 3 ∷ 3 ∷ 3 ∷ 3 ∷ 3 ∷ 3 ∷ 3 ∷ 3 ∷ 3 ∷ 3 ∷ 3 ∷ 3 ∷ 3 ∷ 1 ∷ 1 ∷ 1 ∷ []

unfoldable pub yy_base : List ℕ
yy_base =
    0 ∷ 0 ∷ 0 ∷ 126 ∷ 127 ∷ 127 ∷ 108 ∷ 120 ∷ 118 ∷ 127 ∷ 127 ∷ 127 ∷ 35 ∷ 108 ∷ 113 ∷ 36 ∷ 103
    ∷ 102 ∷ 101 ∷ 0 ∷ 86 ∷ 84 ∷ 19 ∷ 24 ∷ 88 ∷ 76 ∷ 71 ∷ 79 ∷ 77 ∷ 80 ∷ 65 ∷ 127 ∷ 104 ∷ 103 ∷ 44
    ∷ 92 ∷ 47 ∷ 40 ∷ 127 ∷ 85 ∷ 0 ∷ 75 ∷ 66 ∷ 68 ∷ 65 ∷ 0 ∷ 62 ∷ 61 ∷ 62 ∷ 62 ∷ 65 ∷ 64 ∷ 63 ∷ 51
    ∷ 62 ∷ 65 ∷ 67 ∷ 51 ∷ 50 ∷ 61 ∷ 53 ∷ 60 ∷ 53 ∷ 55 ∷ 70 ∷ 45 ∷ 44 ∷ 45 ∷ 55 ∷ 53 ∷ 45 ∷ 49 ∷ 47
    ∷ 39 ∷ 33 ∷ 43 ∷ 37 ∷ 36 ∷ 127 ∷ 74 ∷ 57 ∷ []

unfoldable pub yy_def : List ℕ
yy_def =
    0 ∷ 78 ∷ 1 ∷ 78 ∷ 78 ∷ 78 ∷ 78 ∷ 79 ∷ 78 ∷ 78 ∷ 78 ∷ 78 ∷ 78 ∷ 78 ∷ 78 ∷ 78 ∷ 78 ∷ 78 ∷ 78 ∷ 80
    ∷ 80 ∷ 80 ∷ 80 ∷ 80 ∷ 80 ∷ 80 ∷ 80 ∷ 80 ∷ 80 ∷ 80 ∷ 78 ∷ 78 ∷ 79 ∷ 79 ∷ 78 ∷ 78 ∷ 78 ∷ 78 ∷ 78
    ∷ 78 ∷ 80 ∷ 80 ∷ 80 ∷ 80 ∷ 80 ∷ 80 ∷ 80 ∷ 80 ∷ 80 ∷ 80 ∷ 80 ∷ 80 ∷ 80 ∷ 78 ∷ 80 ∷ 80 ∷ 80 ∷ 80
    ∷ 80 ∷ 80 ∷ 80 ∷ 80 ∷ 80 ∷ 78 ∷ 78 ∷ 80 ∷ 80 ∷ 80 ∷ 80 ∷ 80 ∷ 80 ∷ 80 ∷ 80 ∷ 80 ∷ 80 ∷ 80 ∷ 80
    ∷ 80 ∷ 0 ∷ 78 ∷ 78 ∷ []

unfoldable pub yy_nxt : List ℕ
yy_nxt =
    0 ∷ 4 ∷ 5 ∷ 6 ∷ 7 ∷ 8 ∷ 9 ∷ 9 ∷ 10 ∷ 11 ∷ 9 ∷ 12 ∷ 13 ∷ 14 ∷ 15 ∷ 9 ∷ 16 ∷ 17 ∷ 18 ∷ 19 ∷ 19 ∷ 9
    ∷ 9 ∷ 4 ∷ 19 ∷ 19 ∷ 20 ∷ 21 ∷ 22 ∷ 19 ∷ 19 ∷ 23 ∷ 19 ∷ 19 ∷ 19 ∷ 19 ∷ 24 ∷ 25 ∷ 26 ∷ 27 ∷ 28
    ∷ 29 ∷ 19 ∷ 9 ∷ 30 ∷ 9 ∷ 34 ∷ 35 ∷ 35 ∷ 36 ∷ 36 ∷ 43 ∷ 45 ∷ 44 ∷ 37 ∷ 34 ∷ 35 ∷ 46 ∷ 36 ∷ 35
    ∷ 40 ∷ 36 ∷ 63 ∷ 39 ∷ 45 ∷ 64 ∷ 63 ∷ 39 ∷ 41 ∷ 64 ∷ 77 ∷ 45 ∷ 45 ∷ 76 ∷ 39 ∷ 32 ∷ 45 ∷ 32 ∷ 45
    ∷ 75 ∷ 74 ∷ 73 ∷ 45 ∷ 72 ∷ 64 ∷ 71 ∷ 45 ∷ 70 ∷ 69 ∷ 68 ∷ 67 ∷ 66 ∷ 45 ∷ 65 ∷ 62 ∷ 61 ∷ 60 ∷ 59
    ∷ 58 ∷ 57 ∷ 45 ∷ 45 ∷ 56 ∷ 55 ∷ 54 ∷ 53 ∷ 37 ∷ 33 ∷ 33 ∷ 31 ∷ 52 ∷ 51 ∷ 50 ∷ 49 ∷ 48 ∷ 47 ∷ 42
    ∷ 41 ∷ 31 ∷ 31 ∷ 31 ∷ 38 ∷ 37 ∷ 31 ∷ 33 ∷ 31 ∷ 78 ∷ 3 ∷ 78 ∷ 78 ∷ 78 ∷ 78 ∷ 78 ∷ 78 ∷ 78 ∷ 78
    ∷ 78 ∷ 78 ∷ 78 ∷ 78 ∷ 78 ∷ 78 ∷ 78 ∷ 78 ∷ 78 ∷ 78 ∷ 78 ∷ 78 ∷ 78 ∷ 78 ∷ 78 ∷ 78 ∷ 78 ∷ 78 ∷ 78
    ∷ 78 ∷ 78 ∷ 78 ∷ 78 ∷ 78 ∷ 78 ∷ 78 ∷ 78 ∷ 78 ∷ 78 ∷ 78 ∷ 78 ∷ 78 ∷ 78 ∷ 78 ∷ 78 ∷ 78 ∷ 78 ∷ []

unfoldable pub yy_chk : List ℕ
yy_chk =
    0 ∷ 1 ∷ 1 ∷ 1 ∷ 1 ∷ 1 ∷ 1 ∷ 1 ∷ 1 ∷ 1 ∷ 1 ∷ 1 ∷ 1 ∷ 1 ∷ 1 ∷ 1 ∷ 1 ∷ 1 ∷ 1 ∷ 1 ∷ 1 ∷ 1 ∷ 1 ∷ 1
    ∷ 1 ∷ 1 ∷ 1 ∷ 1 ∷ 1 ∷ 1 ∷ 1 ∷ 1 ∷ 1 ∷ 1 ∷ 1 ∷ 1 ∷ 1 ∷ 1 ∷ 1 ∷ 1 ∷ 1 ∷ 1 ∷ 1 ∷ 1 ∷ 1 ∷ 1 ∷ 12
    ∷ 12 ∷ 15 ∷ 12 ∷ 15 ∷ 22 ∷ 23 ∷ 22 ∷ 37 ∷ 34 ∷ 34 ∷ 23 ∷ 34 ∷ 36 ∷ 80 ∷ 36 ∷ 53 ∷ 15 ∷ 77 ∷ 53
    ∷ 63 ∷ 37 ∷ 76 ∷ 63 ∷ 75 ∷ 74 ∷ 73 ∷ 72 ∷ 36 ∷ 79 ∷ 71 ∷ 79 ∷ 70 ∷ 69 ∷ 68 ∷ 67 ∷ 66 ∷ 65 ∷ 64
    ∷ 62 ∷ 61 ∷ 60 ∷ 59 ∷ 58 ∷ 57 ∷ 56 ∷ 55 ∷ 54 ∷ 52 ∷ 51 ∷ 50 ∷ 49 ∷ 48 ∷ 47 ∷ 46 ∷ 44 ∷ 43 ∷ 42
    ∷ 41 ∷ 39 ∷ 35 ∷ 33 ∷ 32 ∷ 30 ∷ 29 ∷ 28 ∷ 27 ∷ 26 ∷ 25 ∷ 24 ∷ 21 ∷ 20 ∷ 18 ∷ 17 ∷ 16 ∷ 14 ∷ 13
    ∷ 8 ∷ 7 ∷ 6 ∷ 3 ∷ 78 ∷ 78 ∷ 78 ∷ 78 ∷ 78 ∷ 78 ∷ 78 ∷ 78 ∷ 78 ∷ 78 ∷ 78 ∷ 78 ∷ 78 ∷ 78 ∷ 78 ∷ 78
    ∷ 78 ∷ 78 ∷ 78 ∷ 78 ∷ 78 ∷ 78 ∷ 78 ∷ 78 ∷ 78 ∷ 78 ∷ 78 ∷ 78 ∷ 78 ∷ 78 ∷ 78 ∷ 78 ∷ 78 ∷ 78 ∷ 78
    ∷ 78 ∷ 78 ∷ 78 ∷ 78 ∷ 78 ∷ 78 ∷ 78 ∷ 78 ∷ 78 ∷ 78 ∷ 78 ∷ []
