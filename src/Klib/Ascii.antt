-- ===== src/Klib/Ascii.antt =====
-- The characters that the formatter of klib/string.c names.
use zuzu.Base.{ℕ}

abbrev pub percent : ℕ
percent = 37

abbrev pub minus_sign : ℕ
minus_sign = 45

abbrev pub plus_sign : ℕ
plus_sign = 43

abbrev pub blank : ℕ
blank = 32

abbrev pub hash : ℕ
hash = 35

abbrev pub star : ℕ
star = 42

abbrev pub dot : ℕ
dot = 46

abbrev pub zero_digit : ℕ
zero_digit = 48

abbrev pub nine : ℕ
nine = 57

abbrev pub question : ℕ
question = 63

abbrev pub upper_e : ℕ
upper_e = 69

abbrev pub upper_f : ℕ
upper_f = 70

abbrev pub upper_g : ℕ
upper_g = 71

abbrev pub upper_p : ℕ
upper_p = 80

abbrev pub upper_x : ℕ
upper_x = 88

abbrev pub low_b : ℕ
low_b = 98

abbrev pub low_c : ℕ
low_c = 99

abbrev pub low_d : ℕ
low_d = 100

abbrev pub low_e : ℕ
low_e = 101

abbrev pub low_f : ℕ
low_f = 102

abbrev pub low_g : ℕ
low_g = 103

abbrev pub low_h : ℕ
low_h = 104

abbrev pub low_i : ℕ
low_i = 105

abbrev pub low_l : ℕ
low_l = 108

abbrev pub low_o : ℕ
low_o = 111

abbrev pub low_p : ℕ
low_p = 112

abbrev pub low_s : ℕ
low_s = 115

abbrev pub low_u : ℕ
low_u = 117

abbrev pub low_x : ℕ
low_x = 120

abbrev pub low_z : ℕ
low_z = 122
