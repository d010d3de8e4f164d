-- ===== src/Symbols/Table.antt =====
-- radio2/src/symbols.i: the two tables between 7-bit values and 8-bit symbols.
use Prim.Native.Nat.{ℕ}
use mathlib.Core.List.{List, [], ◌∷◌}
use old_radio.Base.Int.{ℤ, pos, negsuc}

unfoldable pub symbol_encode : List ℕ
symbol_encode =
    0xf7 ∷ 0xf6 ∷ 0xf5 ∷ 0xf4 ∷ 0xf3 ∷ 0xf2 ∷ 0xf1 ∷ 0xef ∷ 0xee ∷ 0xed ∷ 0xec ∷ 0xeb ∷ 0xea ∷ 0xe9
    ∷ 0xe7 ∷ 0xe6 ∷ 0xe5 ∷ 0xe4 ∷ 0xe3 ∷ 0xe2 ∷ 0xdf ∷ 0xde ∷ 0xdd ∷ 0xdc ∷ 0xdb ∷ 0xda ∷ 0xd9
    ∷ 0xd7 ∷ 0xd6 ∷ 0xd5 ∷ 0xd4 ∷ 0xd3 ∷ 0xd2 ∷ 0xd1 ∷ 0xcf ∷ 0xce ∷ 0xcd ∷ 0xcc ∷ 0xcb ∷ 0xca
    ∷ 0xc9 ∷ 0xc7 ∷ 0xc6 ∷ 0xc5 ∷ 0xbe ∷ 0xbd ∷ 0xbc ∷ 0xbb ∷ 0xba ∷ 0xb9 ∷ 0xb7 ∷ 0xb6 ∷ 0xb5
    ∷ 0xb4 ∷ 0xb3 ∷ 0xb2 ∷ 0xb1 ∷ 0xaf ∷ 0xae ∷ 0xad ∷ 0xac ∷ 0xab ∷ 0xa9 ∷ 0xa7 ∷ 0xa6 ∷ 0xa5
    ∷ 0xa3 ∷ 0x9f ∷ 0x9e ∷ 0x9d ∷ 0x9c ∷ 0x9b ∷ 0x9a ∷ 0x99 ∷ 0x97 ∷ 0x96 ∷ 0x95 ∷ 0x93 ∷ 0x8f
    ∷ 0x8e ∷ 0x8d ∷ 0x8b ∷ 0x7d ∷ 0x7c ∷ 0x7b ∷ 0x7a ∷ 0x79 ∷ 0x77 ∷ 0x76 ∷ 0x75 ∷ 0x74 ∷ 0x73
    ∷ 0x72 ∷ 0x71 ∷ 0x6f ∷ 0x6e ∷ 0x6d ∷ 0x6c ∷ 0x6b ∷ 0x6a ∷ 0x69 ∷ 0x67 ∷ 0x66 ∷ 0x65 ∷ 0x63
    ∷ 0x5f ∷ 0x5e ∷ 0x5d ∷ 0x5c ∷ 0x5b ∷ 0x5a ∷ 0x59 ∷ 0x57 ∷ 0x56 ∷ 0x53 ∷ 0x4f ∷ 0x4e ∷ 0x4d
    ∷ 0x4b ∷ 0x47 ∷ 0x3e ∷ 0x3d ∷ 0x3c ∷ 0x3b ∷ 0x3a ∷ 0x39 ∷ 0x37 ∷ 0x36 ∷ []

-- -1 marks a symbol that is not valid; -2, -3 and -4 are the three reserved ones.
unfoldable pub symbol_decode : List ℤ
symbol_decode =
    negsuc 0
    ∷ negsuc 0
    ∷ negsuc 0
    ∷ negsuc 0
    ∷ negsuc 0
    ∷ negsuc 0
    ∷ negsuc 0
    ∷ negsuc 0
    ∷ negsuc 0
    ∷ negsuc 0
    ∷ negsuc 0
    ∷ negsuc 0
    ∷ negsuc 0
    ∷ negsuc 0
    ∷ negsuc 0
    ∷ negsuc 0
    ∷ negsuc 0
    ∷ negsuc 0
    ∷ negsuc 0
    ∷ negsuc 0
    ∷ negsuc 0
    ∷ negsuc 0
    ∷ negsuc 0
    ∷ negsuc 0
    ∷ negsuc 0
    ∷ negsuc 0
    ∷ negsuc 0
    ∷ negsuc 0
    ∷ negsuc 0
    ∷ negsuc 0
    ∷ negsuc 0
    ∷ negsuc 0
    ∷ negsuc 0
    ∷ negsuc 0
    ∷ negsuc 0
    ∷ negsuc 0
    ∷ negsuc 0
    ∷ negsuc 0
    ∷ negsuc 0
    ∷ negsuc 0
    ∷ negsuc 0
    ∷ negsuc 0
    ∷ negsuc 0
    ∷ negsuc 0
    ∷ negsuc 0
    ∷ negsuc 0
    ∷ negsuc 0
    ∷ negsuc 0
    ∷ negsuc 0
    ∷ negsuc 0
    ∷ negsuc 0
    ∷ negsuc 0
    ∷ negsuc 0
    ∷ negsuc 0
    ∷ pos 127
    ∷ pos 126
    ∷ negsuc 0
    ∷ pos 125
    ∷ pos 124
    ∷ pos 123
    ∷ pos 122
    ∷ pos 121
    ∷ pos 120
    ∷ negsuc 0
    ∷ negsuc 0
    ∷ negsuc 0
    ∷ negsuc 0
    ∷ negsuc 0
    ∷ negsuc 0
    ∷ negsuc 0
    ∷ negsuc 0
    ∷ pos 119
    ∷ negsuc 0
    ∷ negsuc 0
    ∷ negsuc 0
    ∷ pos 118
    ∷ negsuc 0
    ∷ pos 117
    ∷ pos 116
    ∷ pos 115
    ∷ negsuc 0
    ∷ negsuc 0
    ∷ negsuc 0
    ∷ pos 114
    ∷ negsuc 0
    ∷ negsuc 1
    ∷ pos 113
    ∷ pos 112
    ∷ negsuc 0
    ∷ pos 111
    ∷ pos 110
    ∷ pos 109
    ∷ pos 108
    ∷ pos 107
    ∷ pos 106
    ∷ pos 105
    ∷ negsuc 0
    ∷ negsuc 0
    ∷ negsuc 0
    ∷ pos 104
    ∷ negsuc 0
    ∷ pos 103
    ∷ pos 102
    ∷ pos 101
    ∷ negsuc 0
    ∷ pos 100
    ∷ pos 99
    ∷ pos 98
    ∷ pos 97
    ∷ pos 96
    ∷ pos 95
    ∷ pos 94
    ∷ negsuc 0
    ∷ pos 93
    ∷ pos 92
    ∷ pos 91
    ∷ pos 90
    ∷ pos 89
    ∷ pos 88
    ∷ pos 87
    ∷ negsuc 0
    ∷ pos 86
    ∷ pos 85
    ∷ pos 84
    ∷ pos 83
    ∷ pos 82
    ∷ negsuc 0
    ∷ negsuc 0
    ∷ negsuc 0
    ∷ negsuc 0
    ∷ negsuc 0
    ∷ negsuc 0
    ∷ negsuc 0
    ∷ negsuc 0
    ∷ negsuc 0
    ∷ negsuc 0
    ∷ negsuc 0
    ∷ negsuc 0
    ∷ negsuc 0
    ∷ pos 81
    ∷ negsuc 0
    ∷ pos 80
    ∷ pos 79
    ∷ pos 78
    ∷ negsuc 0
    ∷ negsuc 0
    ∷ negsuc 0
    ∷ pos 77
    ∷ negsuc 0
    ∷ pos 76
    ∷ pos 75
    ∷ pos 74
    ∷ negsuc 0
    ∷ pos 73
    ∷ pos 72
    ∷ pos 71
    ∷ pos 70
    ∷ pos 69
    ∷ pos 68
    ∷ pos 67
    ∷ negsuc 0
    ∷ negsuc 0
    ∷ negsuc 0
    ∷ pos 66
    ∷ negsuc 0
    ∷ pos 65
    ∷ pos 64
    ∷ pos 63
    ∷ negsuc 0
    ∷ pos 62
    ∷ negsuc 2
    ∷ pos 61
    ∷ pos 60
    ∷ pos 59
    ∷ pos 58
    ∷ pos 57
    ∷ negsuc 0
    ∷ pos 56
    ∷ pos 55
    ∷ pos 54
    ∷ pos 53
    ∷ pos 52
    ∷ pos 51
    ∷ pos 50
    ∷ negsuc 0
    ∷ pos 49
    ∷ pos 48
    ∷ pos 47
    ∷ pos 46
    ∷ pos 45
    ∷ pos 44
    ∷ negsuc 0
    ∷ negsuc 0
    ∷ negsuc 0
    ∷ negsuc 0
    ∷ negsuc 0
    ∷ negsuc 0
    ∷ pos 43
    ∷ pos 42
    ∷ pos 41
    ∷ negsuc 0
    ∷ pos 40
    ∷ pos 39
    ∷ pos 38
    ∷ pos 37
    ∷ pos 36
    ∷ pos 35
    ∷ pos 34
    ∷ negsuc 0
    ∷ pos 33
    ∷ pos 32
    ∷ pos 31
    ∷ pos 30
    ∷ pos 29
    ∷ pos 28
    ∷ pos 27
    ∷ negsuc 0
    ∷ pos 26
    ∷ pos 25
    ∷ pos 24
    ∷ pos 23
    ∷ pos 22
    ∷ pos 21
    ∷ pos 20
    ∷ negsuc 0
    ∷ negsuc 0
    ∷ pos 19
    ∷ pos 18
    ∷ pos 17
    ∷ pos 16
    ∷ pos 15
    ∷ pos 14
    ∷ negsuc 0
    ∷ pos 13
    ∷ pos 12
    ∷ pos 11
    ∷ pos 10
    ∷ pos 9
    ∷ pos 8
    ∷ pos 7
    ∷ negsuc 0
    ∷ pos 6
    ∷ pos 5
    ∷ pos 4
    ∷ pos 3
    ∷ pos 2
    ∷ pos 1
    ∷ pos 0
    ∷ negsuc 0
    ∷ negsuc 0
    ∷ negsuc 0
    ∷ negsuc 0
    ∷ negsuc 0
    ∷ negsuc 0
    ∷ negsuc 0
    ∷ negsuc 3
    ∷ []
