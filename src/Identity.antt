-- ===== src/Identity.antt =====
-- mesh/identity.py: the self-signed certificate that binds a node's id to its key.
use Prim.Native.String.{◌++◌}
use slancha_mesh.Common.{String, Bool, ◌==◌, ◌&&◌}

-- `NodeIdentityCert` of mesh/registry.py, whose dump is the dictionary that is verified.
pub record NodeIdentityCert : Type 0 where
  pub node_id : String
  pub public_key_b64 : String
  pub signature_b64 : String

-- PyNaCl: whether a signature over a message verifies under a key, all three in the form that the
-- caller has them; a text that does not decode is no valid signature.
abbrev pub VerifySignature : Type 0
VerifySignature = (public_key_b64 message signature_b64 : String) → Bool

-- The text that the node signs.
unfoldable pub cert_message : String → String → String
cert_message node_id public_key_b64 = "slancha-node-cert/v1|" ++ node_id ++ "|" ++ public_key_b64

unfoldable pub verify_node_cert : VerifySignature → NodeIdentityCert → String → Bool
verify_node_cert verify cert expected_node_id =
    cert.node_id == expected_node_id
    && verify cert.public_key_b64 (cert_message cert.node_id cert.public_key_b64) cert.signature_b64
