-- ===== src/Tests/Certificates.antt =====
-- The theorems on certificates, applied to a chain of two blocks of one character each.
use crossplane_provider_hana.Prelude.{
  ℕ, suc, ◌<◌, ◌≡◌, refl, true, false, some, none, Option, List, [], ◌∷◌, ◌++◌, length, arith, ap,
}
use crossplane_provider_hana.Text.{Text, lit}
use crossplane_provider_hana.Errors.{Err, ok, err, other, wrap}
use crossplane_provider_hana.Sql.{Database, str, int, Row}
use crossplane_provider_hana.Numbers.ℤ.{pos}
use crossplane_provider_hana.Apis.{CertificateParameters}
use crossplane_provider_hana.Clients.Certificate.{
  Block, Encodings, split_chain, split_pem_chain, create_each, create, delete,
}
use crossplane_provider_hana.Clients.Certificate.Chain.{split_chain_ends}
use crossplane_provider_hana.Clients.Certificate.Laws.{
  in_transaction, certificate_delete_ends, certificate_create_leaves_open,
}
use crossplane_provider_hana.Tests.Data.{answering, refusing}

-- Every character is a block.
abbrev first_block : Text → Option (Block × Text)
first_block [] = none
first_block (c ∷ s) = some (record { block_type = lit "CERTIFICATE"; bytes = c ∷ [] }, s)

abbrev encodings : Encodings
encodings = record {
  decode = first_block;
  encode_to_memory = λ b. b.bytes;
  parse_certificate = λ bytes. ok (record { serial = bytes; not_before = lit "01012026000000" });
  quote = λ s. s;
}

first_block_shorter :
    (s rest : Text) (b : Block) → first_block s ≡ some (b, rest) → length rest < length s
first_block_shorter [] rest b h = cc
first_block_shorter (c ∷ s) rest b h = ground arith

split_chain_ends_example :
    split_chain encodings 9 [] (lit "AB") ≡ some (split_pem_chain encodings (lit "AB"))
split_chain_ends_example = split_chain_ends encodings first_block_shorter 9 (lit "AB") (omega arith)

abbrev server : CertificateParameters
server = record { name = lit "srv"; certificate_secret_ref = none }

abbrev certificate_row : Row
certificate_row = int (pos 1) ∷ str (lit "SRV_CRT_SRV_CERTIFICATE_1_01012026000000") ∷ []

-- The database refuses to drop the certificate.
abbrev keeping : Database
keeping = record (answering (certificate_row ∷ [])) {
  on_exec =
      (refusing (lit "DROP CERTIFICATE \"SRV_CRT_SRV_CERTIFICATE_1_01012026000000\"")).on_exec;
}

certificate_delete_ends_example :
    in_transaction false (delete keeping encodings server []).1 ≡ false
unfolding in_transaction crossplane_provider_hana.Prelude.list_eq
certificate_delete_ends_example =
    certificate_delete_ends keeping encodings server [] (λ g. refl) refl

-- The second certificate of the chain is refused.
abbrev full : Database
full = refusing (lit "CREATE CERTIFICATE \"SRV_CRT_SRV_CERTIFICATE_B_01012026000000\" FROM 'B'")

abbrev failure : Err
failure =
    wrap (lit "failed to create certificate SRV_CRT_SRV_CERTIFICATE_B_01012026000000: ")
      (other (lit "refused"))

certificate_create_leaves_open_example :
    let after_create = create full encodings server (lit "AB") [] in
    (after_create.0 ≡ err failure) × (in_transaction false after_create.1 ≡ true)
unfolding split_pem_chain create_each crossplane_provider_hana.Prelude.list_eq
    crossplane_provider_hana.Text.replace_all
certificate_create_leaves_open_example =
    certificate_create_leaves_open full encodings server (lit "AB") (lit "A" ∷ lit "B" ∷ []) [] refl
      refl refl
