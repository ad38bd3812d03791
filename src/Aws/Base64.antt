-- ===== src/Aws/Base64.antt =====
-- `base64_encode` of src/aws_bastion_provisioner.rs. On bytes, a shift to the right is a division
-- by a power of two, a mask of the lowest bits a remainder, and `|` of disjoint bits a sum.
pub mod Decoding
use ephemwork.Prelude.{ℕ, zero, suc, ◌+◌, ◌*◌, ◌/◌, ◌%◌, List, [], ◌∷◌, ◌++◌}
use ephemwork.Text.{Text, codes}
use ephemwork.Protocol.{Bytes}

abbrev pub alphabet : Text
alphabet = codes "ABCDEFGHIJKLMNOPQRSTUVWXYZabcdefghijklmnopqrstuvwxyz0123456789+/"

-- `xs[n]`, for n within bounds.
abbrev pub at : ℕ → Text → ℕ
at n [] = 0
at zero (c ∷ cs) = c
at (suc n) (c ∷ cs) = at n cs

unfoldable pub letter : ℕ → ℕ
letter n = at n alphabet

unfoldable pub base64_encode : Bytes → Text
base64_encode [] = []
base64_encode (b0 ∷ []) = letter (b0 / 4) ∷ letter (b0 % 4 * 16) ∷ b'=' ∷ b'=' ∷ []
base64_encode (b0 ∷ b1 ∷ []) =
    letter (b0 / 4) ∷ letter (b0 % 4 * 16 + b1 / 16) ∷ letter (b1 % 16 * 4) ∷ b'=' ∷ []
base64_encode (b0 ∷ b1 ∷ b2 ∷ input) =
    letter (b0 / 4)
    ∷ letter (b0 % 4 * 16 + b1 / 16)
    ∷ letter (b1 % 16 * 4 + b2 / 64)
    ∷ letter (b2 % 64)
    ∷ base64_encode input
